-- ===== src/Session/Members/Paging.antt =====
-- A page of the members (`handle_conv_members_req` of `server/session/conversation.cpp` under `src`).
use Prim.Native.Nat.{min}
use bigxin.Prelude.{
  ◌≡◌, refl, ap, ◌∙◌, ℕ, zero, suc, ◌+◌, ◌-◌, ◌^◌, ◌≤◌, ◌<◌, none, some, List, [], ◌∷◌, ◌++◌,
  length, length-append, ltb, arith,
}
use bigxin.Database.Conversation.{MemberInfo}
use bigxin.Session.Members.{MembersPage, slice, page_end, page_begin, members_page}

module _ {A : Type 0} where
  slice-front :
      (n : ℕ) (xs : List A)
      → n ≤ length xs
      → (page : List A) × (after : List A) × (slice 0 n xs ≡ some page)
        × (xs ≡ page ++ after)
        × (length page ≡ n)
  unfolding slice
  slice-front zero xs h = ([], xs, refl, refl, refl)
  slice-front (suc n) [] h = ground arith
  slice-front (suc n) (x ∷ xs) h =
      let (page, after, e, split, k) = slice-front n xs (omega arith) in
      (x ∷ page, after, rw e refl, ap (λ ys. x ∷ ys) split, ap suc k)

  slice-suc : (b n : ℕ) (x : A) (xs : List A) → slice (suc b) n (x ∷ xs) ≡ slice b n xs
  unfolding slice
  slice-suc b zero x xs = refl
  slice-suc b (suc n) x xs = refl

  -- What is sliced stands between two other parts.
  slice-split :
      (b n : ℕ) (xs : List A)
      → b + n ≤ length xs
      → (before : List A) × (page : List A) × (after : List A) × (slice b n xs ≡ some page)
        × (xs ≡ before ++ (page ++ after))
        × (length before ≡ b)
        × (length page ≡ n)
  slice-split zero n xs h =
      let (page, after, e, split, k) = slice-front n xs (omega arith) in
      ([], page, after, e, split, refl, k)
  slice-split (suc b) n [] h = ground arith
  slice-split (suc b) n (x ∷ xs) h =
      let (before, page, after, e, split, l, k) = slice-split b n xs (omega arith) in
      (x ∷ before, page, after, slice-suc b n x xs ∙ e, ap (λ ys. x ∷ ys) split, ap suc l, k)

  slice-past : (b n : ℕ) (xs : List A) → length xs < b + suc n → slice b (suc n) xs ≡ none
  unfolding slice
  slice-past b n [] h = refl
  slice-past zero zero (x ∷ xs) h = ground arith
  slice-past zero (suc n) (x ∷ xs) h = rw (slice-past zero n xs (omega arith)) refl
  slice-past (suc b) n (x ∷ xs) h = slice-past b n xs (omega arith)

-- Where the loop runs.
page_range :
    (offset limit total : ℕ)
    → offset + limit < 2 ^ 63
    → page_begin offset total + (page_end offset limit total - page_begin offset total) ≤ total
unfolding page_begin page_end
page_range offset limit total h = ground arith

page_numbers :
    (offset limit total before page after : ℕ)
    → offset + limit < 2 ^ 63
    → total ≡ before + (page + after)
    → before ≡ page_begin offset total
    → page ≡ page_end offset limit total - page_begin offset total
    → (before ≡ min offset total)
      × (page ≡ min limit (total - offset))
      × (page_end offset limit total ≡ before + page)
      × (ltb (page_end offset limit total) total ≡ ltb 0 after)
unfolding page_begin page_end
page_numbers offset limit total before page after h t b p =
    (ground arith, ground arith, ground arith, ground arith)

-- For an offset and a limit whose sum is below 2^63 the page is cut out of the list without reading past its end:
-- it starts at the offset or at the end, has `limit` members or all that are left if these are fewer, `nextOffset` is
-- the place behind it, and `hasMore` says whether any follow.
pub page_in_range :
    (conv offset limit : ℕ) (members : List MemberInfo)
    → offset + limit < 2 ^ 63
    → (page : MembersPage) × (before : List MemberInfo) × (after : List MemberInfo) × (members_page
          conv offset limit members
        ≡ some page)
      × (members ≡ before ++ (page.members ++ after))
      × (length before ≡ min offset (length members))
      × (length page.members ≡ min limit (length members - offset))
      × (page.next_offset ≡ length before + length page.members)
      × (page.has_more ≡ ltb 0 (length after))
unfolding members_page
page_in_range conv offset limit members h =
    let total = length members in
    let begin = page_begin offset total in
    let end = page_end offset limit total in
    let (before, page, after, e, split, l, k) =
      slice-split begin (end - begin) members (page_range offset limit total h) in
    let sum : total ≡ length before + (length page + length after) =
      ap length split
      ∙ omega (arith, length-append before (page ++ after), length-append page after) in
    let (start, bound, next, more) =
      page_numbers offset limit total (length before) (length page) (length after) h sum l k in
    (
      record {
        conversation_id = conv;
        total = total;
        has_more = ltb end total;
        next_offset = end;
        members = page;
      },
      before,
      after,
      rw (members_page, e) refl,
      split,
      start,
      bound,
      next,
      more,
    )

overflow_end :
    (offset limit total : ℕ)
    → offset < 2 ^ 63
    → limit ≤ 200
    → 2 ^ 63 ≤ offset + limit
    → total < 2 ^ 62
    → page_end offset limit total - page_begin offset total ≡ suc (offset + limit - total - 1)
unfolding page_begin page_end
overflow_end offset limit total ho hl hs hm = ground arith

overflow_begin :
    (offset limit total : ℕ)
    → limit ≤ 200
    → 2 ^ 63 ≤ offset + limit
    → total < 2 ^ 62
    → page_begin offset total ≡ total
unfolding page_begin
overflow_begin offset limit total hl hs hm = ground arith

-- For a sum from 2^63 on, with an offset and a list below 2^63 and a limit of at most 200, the loop reads past the end of
-- the list.
pub page_overflow :
    (conv offset limit : ℕ) (members : List MemberInfo)
    → offset < 2 ^ 63
    → limit ≤ 200
    → 2 ^ 63 ≤ offset + limit
    → length members < 2 ^ 62
    → members_page conv offset limit members ≡ none
unfolding members_page
page_overflow conv offset limit members ho hl hs hm =
    let total = length members in
    rw
      (
        members_page,
        overflow_end offset limit total ho hl hs hm,
        overflow_begin offset limit total hl hs hm,
        slice-past total (offset + limit - total - 1) members (omega arith),
      )
      refl
