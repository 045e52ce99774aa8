-- ===== src/Indexer/Walk.antt =====
-- What holds all through the walk over the pages of an address (server/src/payoutIndexer.ts).
use steakout.Prelude.{
  ℕ, zero, suc, ◌+◌, ◌≤◌, ◌≡◌, refl, Text, text_eq_refl, Bool, true, false, not, ◌&&◌, ◌||◌, Option,
  none, some, List, [], ◌∷◌, ◌++◌, if◌then◌else◌, arith,
}
use steakout.Rpc.{Reply, returned, failed}
use steakout.Indexer.{
  ChainTransaction, NormalizedTransaction, Floor, WalkState, Scan, is_none, is_nil, first_of,
  last_hash, scan_page, keep_scan, next_start, normalize_page,
}
use steakout.Indexer.Address.{Walked, after_next, after_page, after_fetch, walk_pages}
use steakout.Indexer.Table.{is_stored}

-- The newest transaction of a walk is one that it keeps.
abbrev pub newest_kept : List NormalizedTransaction → Option NormalizedTransaction → Bool
newest_kept kept none = true
newest_kept kept (some t) = is_stored kept t.hash

stored-append :
    (xs ys : List NormalizedTransaction) (h : Text)
    → is_stored (xs ++ ys) h ≡ (is_stored xs h || is_stored ys h)
stored-append [] ys h = refl
stored-append (x ∷ xs) ys h = ground (arith, stored-append xs ys h)

kept-append :
    (xs ys : List NormalizedTransaction) (o : Option NormalizedTransaction)
    → newest_kept xs o ≡ true
    → newest_kept (xs ++ ys) o ≡ true
kept-append xs ys none h = refl
kept-append xs ys (some t) h = rw (stored-append xs ys t.hash, h) refl

first-kept : (xs ys : List NormalizedTransaction) → newest_kept (xs ++ ys) (first_of ys) ≡ true
first-kept xs [] = refl
first-kept xs (y ∷ ys) = rw (stored-append xs (y ∷ ys) y.hash, text_eq_refl y.hash) (ground arith)

choose_kept :
    (b : Bool) (kept : List NormalizedTransaction) (x y : Option NormalizedTransaction)
    → newest_kept kept x ≡ true
    → newest_kept kept y ≡ true
    → newest_kept kept (if b then x else y) ≡ true
choose_kept true kept x y p q = p
choose_kept false kept x y p q = q

-- What holds all through a walk: the newest transaction is kept, and no more pages were read than
-- allowed.
pub record IsSound (limit : ℕ) (st : WalkState) : Type 0 where
  pub kept : newest_kept st.kept st.newest ≡ true
  pub bounded : st.pages ≤ limit

scan-IsSound :
    (limit : ℕ) (scan : Scan) (st : WalkState)
    → IsSound limit st
    → IsSound limit (keep_scan scan st)
unfolding keep_scan
scan-IsSound limit scan st h = record {
  kept =
      choose_kept (is_none st.start_at && not (is_nil scan.kept)) (st.kept ++ scan.kept)
        (first_of scan.kept) st.newest (first-kept st.kept scan.kept)
        (kept-append st.kept scan.kept st.newest h.kept);
  bounded = h.bounded;
}

module _ {S : Type 0} (fetch : Option Text → S → Reply (List ChainTransaction) × S) (floor : Floor)
    (limit : ℕ) where
  next-IsSound :
      (walk : WalkState → Walked S) (st : WalkState) (s : S) (o : Option Text)
      → ((st' : WalkState) → st'.pages ≡ st.pages → IsSound limit st' → IsSound limit (walk st').1)
      → IsSound limit st
      → IsSound limit (after_next fetch floor walk st s o).1
  unfolding after_next
  next-IsSound walk st s none w h = h
  next-IsSound walk st s (some hash) w h = w _ refl (record { kept = h.kept; bounded = h.bounded })

  page-IsSound :
      (walk : WalkState → Walked S) (st : WalkState) (s : S)
      (reply : Reply (List NormalizedTransaction))
      → ((st' : WalkState) → st'.pages ≡ st.pages → IsSound limit st' → IsSound limit (walk st').1)
      → IsSound limit st
      → IsSound limit (after_page fetch floor walk st s reply).1
  unfolding after_page keep_scan
  page-IsSound walk st s (failed e) w h = h
  page-IsSound walk st s (returned []) w h = h
  page-IsSound walk st s (returned (t ∷ ts)) w h =
      let scan = scan_page floor (is_none st.start_at) (t ∷ ts) in
      next-IsSound walk (keep_scan scan st) s (next_start floor scan st (last_hash t ts)) w
        (scan-IsSound limit scan st h)

  fetch-IsSound :
      (walk : WalkState → Walked S) (st : WalkState) (s : S) (reply : Reply (List ChainTransaction))
      → ((st' : WalkState)
          → st'.pages ≡ st.pages + 1
          → IsSound limit st'
          → IsSound limit (walk st').1)
      → IsSound limit st
      → st.pages + 1 ≤ limit
      → IsSound limit (after_fetch fetch floor walk st s reply).1
  unfolding after_fetch
  fetch-IsSound walk st s (failed e) w h l = h
  fetch-IsSound walk st s (returned raw) w h l =
      page-IsSound walk _ s (normalize_page raw) w (record { kept = h.kept; bounded = l })

  pub walk-IsSound :
      (left : ℕ) (st : WalkState) (s : S)
      → st.pages + left ≤ limit
      → IsSound limit st
      → IsSound limit (walk_pages fetch floor left st s).1
  unfolding walk_pages
  walk-IsSound zero st s l h = h
  walk-IsSound (suc left) st s l h =
      let (reply, s') = fetch st.start_at s in
      fetch-IsSound (λ st'. walk_pages fetch floor left st' s') st s' reply
        (λ st' same sound. walk-IsSound left st' s' (omega (arith, same, l)) sound) h
        (omega (arith, l))
