-- ===== src/Client/Network/Reconnect.antt =====
-- What a new connection takes over from the one before it (`connectToServer` and `onReadyRead` of
-- `src/client/backend/network_manager.cpp` under `src`).
use bigxin.Prelude.{ℕ, ◌≡◌, ap, ◌∙◌, String, none, List, [], ◌∷◌, ◌++◌}
use bigxin.Protocol.{newline, find}
use bigxin.Client.Network.{
  Wire, Network, unconnected, connected, connect_to_server, deliver, on_ready_read,
}
use bigxin.Client.Network.Stream.{scan-line, on_ready_read-eq-scan}

-- The socket is closed, and a new connection is made.
abbrev pub reconnected : Network → Network
reconnected n = record (connect_to_server (record n { socket = unconnected })) {
  socket = connected;
}

-- The first line of a new connection is read with what was left of a line of the old connection before it, where no
-- whole line was left.
pub stale_line :
    {O : Type 0} (w : Wire O) (n : Network) (line : List ℕ)
    → find newline n.buffer ≡ none
    → find newline line ≡ none
    → (on_ready_read w (line ++ newline ∷ []) (reconnected n)).0 ≡ deliver w (n.buffer ++ line)
unfolding connect_to_server
stale_line w n line h e =
    ap (λ (r : List (String × _) × Network). r.0)
      (on_ready_read-eq-scan w (line ++ newline ∷ []) (reconnected n) h)
    ∙ scan-line w n.buffer line e
