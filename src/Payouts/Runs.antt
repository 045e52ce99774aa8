-- ===== src/Payouts/Runs.antt =====
-- groupPayoutRuns (server/src/payoutClassifier.ts): what runs keep of the transactions, and their cuts.
use mathlib.Core.Path.{subst}
use steakout.Prelude.{
  ℕ, ◌+◌, ◌-◌, ◌≡◌, refl, sym, ap, ◌∙◌, Text, Bool, true, Option, none, some, List, [], ◌∷◌, ◌++◌,
  ◌&&◌, map, ltb, arith, filter, count, all, is_some, Bool-cases, inl, inr,
}
use steakout.Prelude.Js.{iso_rank, parse_date}
use steakout.Payouts.Order.{insert, sort}
use steakout.Payouts.Sorting.{is_ordered, sort-ordered, count-sort}
use steakout.Payouts.{
  PayoutTransaction, PayoutRun, Entry, executed, timed, entry_leb, sum_value, run_of, flush, is_gap,
  group_from, window_ms_of, group_payout_runs,
}

abbrev pub all_hashes : List PayoutRun → List Text
all_hashes [] = []
all_hashes (r ∷ rs) = r.tx_hashes ++ all_hashes rs

abbrev pub all_counts : List PayoutRun → ℕ
all_counts [] = 0
all_counts (r ∷ rs) = r.tx_count + all_counts rs

abbrev pub all_values : List PayoutRun → ℕ
all_values [] = 0
all_values (r ∷ rs) = r.total_value_luna + all_values rs

abbrev hash_of : Entry → Text
hash_of e = e.transaction.hash

assoc : {A : Type 0} → (xs ys zs : List A) → (xs ++ ys) ++ zs ≡ xs ++ (ys ++ zs)
assoc [] ys zs = refl
assoc (x ∷ xs) ys zs = ap (λ l. x ∷ l) (assoc xs ys zs)

nil_right : {A : Type 0} → (xs : List A) → xs ++ [] ≡ xs
nil_right [] = refl
nil_right (x ∷ xs) = ap (λ l. x ∷ l) (nil_right xs)

map_append : (xs ys : List Entry) → map hash_of (xs ++ ys) ≡ map hash_of xs ++ map hash_of ys
map_append [] ys = refl
map_append (x ∷ xs) ys = ap (λ l. hash_of x ∷ l) (map_append xs ys)

sum_append : (xs ys : List Entry) → sum_value (xs ++ ys) ≡ sum_value xs + sum_value ys
sum_append [] ys = omega arith
sum_append (x ∷ xs) ys = omega (arith, sum_append xs ys)

hashes_append : (xs ys : List PayoutRun) → all_hashes (xs ++ ys) ≡ all_hashes xs ++ all_hashes ys
hashes_append [] ys = refl
hashes_append (x ∷ xs) ys =
    ap (λ l. x.tx_hashes ++ l) (hashes_append xs ys)
    ∙ sym (assoc x.tx_hashes (all_hashes xs) (all_hashes ys))

values_append : (xs ys : List PayoutRun) → all_values (xs ++ ys) ≡ all_values xs + all_values ys
values_append [] ys = omega arith
values_append (x ∷ xs) ys = omega (arith, values_append xs ys)

-- What a list of runs keeps of a list of entries.
pub record Keeps (entries : List Entry) (runs : List PayoutRun) : Type 0 where
  pub hashes : all_hashes runs ≡ map hash_of entries
  pub values : all_values runs ≡ sum_value entries

flush-Keeps :
    (runs : List PayoutRun) (done current : List Entry)
    → Keeps done runs
    → Keeps (done ++ current) (flush runs current)
unfolding flush run_of
flush-Keeps runs done [] k = rw (nil_right done) k
flush-Keeps runs done (first ∷ rest) k = record {
  hashes =
      hashes_append runs _
      ∙ rw (k.hashes, nil_right (map hash_of (first ∷ rest)))
          (sym (map_append done (first ∷ rest)));
  values = omega (
    arith,
    values_append runs (run_of first rest ∷ []),
    k.values,
    sum_append done (first ∷ rest),
  );
}

group_from-Keeps :
    (window_ms : ℕ) (runs : List PayoutRun) (done current entries : List Entry)
    → Keeps done runs
    → Keeps (done ++ (current ++ entries)) (group_from window_ms runs current entries)
unfolding group_from
group_from-Keeps window_ms runs done current [] k =
    rw (nil_right current) (flush-Keeps runs done current k)
group_from-Keeps window_ms runs done current (e ∷ es) k =
    elim (Bool-cases (is_gap window_ms current e)) [
      | inl gap ↦
          rw (gap, sym (assoc done current (e ∷ es)))
            (group_from-Keeps window_ms (flush runs current) (done ++ current) (e ∷ []) es
              (flush-Keeps runs done current k))
      | inr near ↦
          rw (near, sym (assoc current (e ∷ []) es))
            (group_from-Keeps window_ms runs done (current ++ e ∷ []) es k)
    ]

-- Every run ends longer than the window before the next one starts.
abbrev pub is_after : ℕ → PayoutRun → List PayoutRun → Bool
is_after w r [] = true
is_after w r (next ∷ rs) = ltb w (iso_rank next.started_at - iso_rank r.ended_at)

abbrev pub apart : ℕ → List PayoutRun → Bool
apart w [] = true
apart w (r ∷ rs) = is_after w r rs && apart w rs

is_after-start :
    (w : ℕ) (x r r' : PayoutRun) (xs : List PayoutRun)
    → r.started_at ≡ r'.started_at
    → is_after w x (xs ++ r ∷ []) ≡ is_after w x (xs ++ r' ∷ [])
is_after-start w x r r' [] h = rw h refl
is_after-start w x r r' (y ∷ ys) h = refl

apart-start :
    (w : ℕ) (r r' : PayoutRun) (xs : List PayoutRun)
    → r.started_at ≡ r'.started_at
    → apart w (xs ++ r ∷ []) ≡ apart w (xs ++ r' ∷ [])
apart-start w r r' [] h = refl
apart-start w r r' (x ∷ xs) h = rw (is_after-start w x r r' xs h, apart-start w r r' xs h) refl

is_after-snoc :
    (w : ℕ) (x r r' : PayoutRun) (xs : List PayoutRun)
    → is_after w x ((xs ++ r ∷ []) ++ r' ∷ []) ≡ is_after w x (xs ++ r ∷ [])
is_after-snoc w x r r' [] = refl
is_after-snoc w x r r' (y ∷ ys) = refl

apart-snoc :
    (w : ℕ) (r r' : PayoutRun) (xs : List PayoutRun)
    → ltb w (iso_rank r'.started_at - iso_rank r.ended_at) ≡ true
    → apart w (xs ++ r ∷ []) ≡ true
    → apart w ((xs ++ r ∷ []) ++ r' ∷ []) ≡ true
apart-snoc w r r' [] g h = ground arith
apart-snoc w r r' (x ∷ xs) g h = ground (arith, is_after-snoc w x r r' xs, apart-snoc w r r' xs g)

starts_after :
    (w : ℕ) (first : Entry) (rest : List Entry) (e : Entry)
    → is_gap w (first ∷ rest) e ≡ true
    → ltb w (iso_rank (run_of e []).started_at - iso_rank (run_of first rest).ended_at) ≡ true
unfolding is_gap run_of
starts_after w first rest e h = h

same_start :
    (first : Entry) (rest : List Entry) (e : Entry)
    → (run_of first rest).started_at ≡ (run_of first (rest ++ e ∷ [])).started_at
unfolding run_of
same_start first rest e = refl

group_from-apart :
    (w : ℕ) (runs : List PayoutRun) (first : Entry) (rest entries : List Entry)
    → apart w (runs ++ run_of first rest ∷ []) ≡ true
    → apart w (group_from w runs (first ∷ rest) entries) ≡ true
unfolding group_from flush
group_from-apart w runs first rest [] h = h
group_from-apart w runs first rest (e ∷ es) h = elim (Bool-cases (is_gap w (first ∷ rest) e)) [
  | inl gap ↦ rw gap (
      group_from-apart w (runs ++ run_of first rest ∷ []) e [] es
        (apart-snoc w (run_of first rest) (run_of e []) runs (starts_after w first rest e gap) h))
  | inr near ↦ rw near (
      group_from-apart w runs first (rest ++ e ∷ []) es (
        sym (
          apart-start w (run_of first rest) (run_of first (rest ++ e ∷ [])) runs
            (same_start first rest e))
        ∙ h))
]

sum-insert :
    (e : Entry) (es : List Entry)
    → sum_value (insert entry_leb e es) ≡ e.transaction.value_luna + sum_value es
unfolding insert
sum-insert e [] = refl
sum-insert e (x ∷ xs) = ground (arith, sum-insert e xs)

sum-sort : (es : List Entry) → sum_value (sort entry_leb es) ≡ sum_value es
unfolding sort
sum-sort [] = refl
sum-sort (e ∷ es) = omega (arith, sum-insert e (sort entry_leb es), sum-sort es)

-- What a grouping promises: the runs list the executed transactions, no more and no less, by time and
-- then of hash, their totals add up to what those transactions paid, and every run ends longer than
-- the window before the next one starts.
pub record IsGrouping (txs : List PayoutTransaction) (window_minutes : ℕ) (runs : List PayoutRun)
    : Type 0 where
  pub entries : List Entry
  pub timed : timed (filter executed txs) ≡ some entries
  pub sorted : List Entry
  pub same : (p : Entry → Bool) → count p sorted ≡ count p entries
  pub ordered : is_ordered sorted ≡ true
  pub hashes : all_hashes runs ≡ map hash_of sorted
  pub values : all_values runs ≡ sum_value entries
  pub cut : apart (window_ms_of window_minutes) runs ≡ true

from_empty-apart : (w : ℕ) (entries : List Entry) → apart w (group_from w [] [] entries) ≡ true
unfolding group_from flush is_gap
from_empty-apart w [] = refl
from_empty-apart w (e ∷ es) = group_from-apart w [] e [] es refl

abbrev AllGroupings : List PayoutTransaction → ℕ → Option (List PayoutRun) → Type 0
AllGroupings txs window_minutes none = Unit
AllGroupings txs window_minutes (some runs) = IsGrouping txs window_minutes runs

group-AllGroupings :
    (txs : List PayoutTransaction) (window_minutes : ℕ) (entries : Option (List Entry))
    → timed (filter executed txs) ≡ entries
    → AllGroupings txs window_minutes (elim entries [
      | none ↦ none
      | some es ↦ some (group_from (window_ms_of window_minutes) [] [] (sort entry_leb es))
    ])
group-AllGroupings txs window_minutes none h = tt
group-AllGroupings txs window_minutes (some es) h =
    let w = window_ms_of window_minutes in
    let kept =
      group_from-Keeps w [] [] [] (sort entry_leb es) (record { hashes = refl; values = refl }) in
    record {
      entries = es;
      timed = h;
      sorted = sort entry_leb es;
      same = λ p. count-sort p es;
      ordered = sort-ordered es;
      hashes = kept.hashes;
      values = kept.values ∙ sum-sort es;
      cut = from_empty-apart w (sort entry_leb es);
    }

-- The runs that are returned list the hashes of the executed transactions, no more and no less, by
-- time and then by hash; their totals add up to the values of those transactions; and every run ends
-- longer than the window before the next one starts.
pub group_payout_runs-IsGrouping :
    (txs : List PayoutTransaction) (window_minutes : ℕ) (runs : List PayoutRun)
    → group_payout_runs txs window_minutes ≡ some runs
    → IsGrouping txs window_minutes runs
unfolding group_payout_runs
group_payout_runs-IsGrouping txs window_minutes runs h =
    subst (AllGroupings txs window_minutes) h
      (group-AllGroupings txs window_minutes (timed (filter executed txs)) refl)

abbrev pub is_dated : PayoutTransaction → Bool
is_dated tx = is_some (parse_date tx.timestamp)

timed-dated : (txs : List PayoutTransaction) → is_some (timed txs) ≡ all is_dated txs
unfolding timed
timed-dated [] = refl
timed-dated (tx ∷ txs) = ground (arith, timed-dated txs)

some-kept :
    (entries : Option (List Entry)) (window_minutes : ℕ)
    → is_some (elim entries [
      | none ↦ none
      | some es ↦ some (group_from (window_ms_of window_minutes) [] [] (sort entry_leb es))
    ])
      ≡ is_some entries
some-kept none window_minutes = refl
some-kept (some es) window_minutes = refl

-- The grouping succeeds exactly if every executed transaction has a timestamp that parses; the
-- timestamps of the others do not matter.
pub group_payout_runs-succeeds :
    (txs : List PayoutTransaction) (window_minutes : ℕ)
    → is_some (group_payout_runs txs window_minutes) ≡ all is_dated (filter executed txs)
unfolding group_payout_runs
group_payout_runs-succeeds txs window_minutes =
    some-kept (timed (filter executed txs)) window_minutes ∙ timed-dated (filter executed txs)
