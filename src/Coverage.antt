-- ===== src/Coverage.antt =====
-- server/src/observationScoring.ts: how many known stakers a payout run paid. The fields that are
-- passed through and the fixed list of limitations are left out.
pub mod Laws
pub mod Extremes
use steakout.Prelude.{
  ℕ, Text, text_eq, is_empty, Bool, not, Option, none, some, List, [], ◌∷◌, map, filter, any, count,
  length,
}
use steakout.Addresses.{normalize_address}
use steakout.Payouts.Order.{distinct}

-- `knownStakersCovered` and `knownStakersTotal`.
pub record Covered : Type 0 where
  pub known_stakers_covered : ℕ
  pub known_stakers_total : ℕ

-- `new Set(addresses.map(normalizeAddress).filter(a => a !== ''))`
unfoldable pub address_set : List Text → List Text
unfolding distinct
address_set addresses = distinct (filter (λ a. not (is_empty a)) (map normalize_address addresses))

-- `recipientNormalized.has(staker)`
unfoldable pub is_paid : List Text → Text → Bool
is_paid recipients staker = any (text_eq staker) recipients

unfoldable pub cover : List Text → List Text → Option Covered
unfolding is_paid
cover recipients [] = none
cover recipients (staker ∷ stakers) = some (record {
  known_stakers_covered = count (is_paid recipients) (staker ∷ stakers);
  known_stakers_total = length (staker ∷ stakers);
})

-- `none` is the pair of nulls.
unfoldable pub compute_recipient_coverage : List Text → Option (List Text) → Option Covered
unfolding cover address_set
compute_recipient_coverage recipients none = none
compute_recipient_coverage recipients (some known) =
    cover (address_set recipients) (address_set known)
