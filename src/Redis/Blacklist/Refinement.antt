-- ===== src/Redis/Blacklist/Refinement.antt =====
-- internal/adapters/repository/redis/order_gateway_blacklist_repository.go against its in-memory
-- counterpart.
use payment_gateway_router.Common.{
  String, ◌≡◌, refl, ap, Bool, true, false, ◌&&◌, List, [], ◌∷◌, str_eq, eq_iff, Bool-cases, inl,
  inr,
}
use payment_gateway_router.Domain.Errors.{Result, ok}
use payment_gateway_router.Domain.Gateway.{OrderGatewayAttemptSummary}
use payment_gateway_router.Memory.Blacklist as Memory
use payment_gateway_router.Memory.Blacklist.{
  summary_of, by_gateway, next_summary, count_outcome, at_least_one,
}
use payment_gateway_router.Redis.Key.Splitting.{Plain, key_injective, key_eq, second_part}
use payment_gateway_router.Redis.Client.{Store, HashSetting}
use payment_gateway_router.Redis.Blacklist.{
  summary_key, blacklist_key, number_or_zero, bool_text, parse_bool,
}

pub parse_bool-bool_text : (b : Bool) → parse_bool (bool_text b) ≡ ok b
parse_bool-bool_text true = refl
parse_bool-bool_text false = refl

fourth_part : List String → String
fourth_part (_ ∷ _ ∷ _ ∷ p ∷ _) = p
fourth_part _ = ""

module _ {S V : Type 0} (store : Store S V) (setting : HashSetting store) where
  -- The hash and the set of Redis hold what a summary says.
  pub record Matches (s : S) (order_id gateway : String) (summary : OrderGatewayAttemptSummary)
      : Type 0 where
    pub failures :
        number_or_zero store
          (setting.hashes.field s (summary_key store order_id gateway) "failures")
        ≡ ok summary.failures
    pub successes :
        number_or_zero store
          (setting.hashes.field s (summary_key store order_id gateway) "successes")
        ≡ ok summary.successes
    pub blacklisted :
        setting.hashes.member s (blacklist_key store order_id) gateway ≡ summary.blacklisted

  abbrev pub Related : Memory.Store → S → Type 0
  Related m s =
      (order_id gateway : String)
      → Plain order_id
      → Plain gateway
      → Matches s order_id gateway (summary_of m order_id gateway)

  abbrev pub Refines : {A : Type 0} → Result A × Memory.Store → Result A × S → Type 0
  Refines (r, m) (r', s) = (r' ≡ r) × Related m s

  pub blacklist_key_eq :
      (o o' : String)
      → Plain o
      → Plain o'
      → str_eq (blacklist_key store o) (blacklist_key store o') ≡ str_eq o o'
  unfolding second_part
  blacklist_key_eq o o' h k =
      key_eq store.key_prefix (λ z. "order" ∷ z ∷ "blacklisted_gateways" ∷ []) second_part o o'
        (λ z. refl) (setting.prefixed, ((refl, refl), (h, ((refl, refl), tt))))
        (setting.prefixed, ((refl, refl), (k, ((refl, refl), tt))))

  pub summary_key_eq :
      (o g o' g' : String)
      → Plain o
      → Plain g
      → Plain o'
      → Plain g'
      → str_eq (summary_key store o g) (summary_key store o' g') ≡ (str_eq o o' && str_eq g g')
  unfolding second_part fourth_part
  summary_key_eq o g o' g' h i h' i' =
      elim (Bool-cases (str_eq (summary_key store o g) (summary_key store o' g'))) [
        | inl f ↦
            let same : ("order" ∷ o ∷ "gateway" ∷ g ∷ "attempts" ∷ [])
                ≡ ("order" ∷ o' ∷ "gateway" ∷ g' ∷ "attempts" ∷ []) =
              key_injective store.key_prefix ("order" ∷ o ∷ "gateway" ∷ g ∷ "attempts" ∷ [])
                ("order" ∷ o' ∷ "gateway" ∷ g' ∷ "attempts" ∷ [])
                (setting.prefixed, ((refl, refl), (h, ((refl, refl), (i, ((refl, refl), tt))))))
                (setting.prefixed, ((refl, refl), (h', ((refl, refl), (i', ((refl, refl), tt))))))
                ((eq_iff (summary_key store o g) (summary_key store o' g')).0 f) in
            rw (f, (eq_iff o o').1 (ap second_part same), (eq_iff g g').1 (ap fourth_part same))
              refl
        | inr f ↦ elim (Bool-cases (str_eq o o')) [
          | inr e ↦ rw (f, e) refl
          | inl e ↦ elim (Bool-cases (str_eq g g')) [
            | inr e' ↦ rw (f, e, e') refl
            | inl e' ↦
                let same : summary_key store o g ≡ summary_key store o' g' =
                  rw ((eq_iff o o').0 e, (eq_iff g g').0 e') refl in
                cc (f, (eq_iff (summary_key store o g) (summary_key store o' g')).1 same)
          ]
        ]
      ]
