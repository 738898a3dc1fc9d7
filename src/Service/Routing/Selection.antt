-- ===== src/Service/Routing/Selection.antt =====
-- `selectWeighted` of internal/service/routing_service.go: what it chooses, and how often.
use payment_gateway_router.Common.{
  ℕ, ◌+◌, ◌^◌, ◌≤◌, ◌<◌, ◌≡◌, refl, ◌∙◌, ap, Bool, String, List, [], ◌∷◌, arith, str_eq,
  if◌then◌else◌, count_slots, count_slots_cong, count_slots-add, count_slots_const,
}
use payment_gateway_router.Go.Int.{pos, pos_part, pos-+ℤ}
use payment_gateway_router.Domain.Config.{GatewayConfig}
use payment_gateway_router.Service.Routing.{total_weight, pick}

-- The sum of the positive weights, as a number.
abbrev pub weight_sum : List GatewayConfig → ℕ
weight_sum [] = 0
weight_sum (c ∷ rest) = pos_part c.weight + weight_sum rest

pub total_weight-eq_sum :
    (cs : List GatewayConfig) (n : ℕ)
    → n + weight_sum cs < 2 ^ 63
    → total_weight (pos n) cs ≡ pos (n + weight_sum cs)
unfolding total_weight
total_weight-eq_sum [] n fits = ap pos (omega arith)
total_weight-eq_sum (c ∷ rest) n fits = ground (
  arith,
  total_weight-eq_sum rest n,
  total_weight-eq_sum rest (n + pos_part c.weight),
  pos-+ℤ n (pos_part c.weight),
)

module _ (c : GatewayConfig) (rest : List GatewayConfig) (last : GatewayConfig) (k r : ℕ) where
  pub pick_before :
      r + pos_part c.weight < 2 ^ 63
      → r ≤ k
      → k < r + pos_part c.weight
      → pick (pos k) (pos r) last (c ∷ rest) ≡ c
  unfolding pick
  pick_before fits lo hi = ground (arith, pos-+ℤ r (pos_part c.weight))

  pub pick_after :
      r + pos_part c.weight < 2 ^ 63
      → r + pos_part c.weight ≤ k
      → pick (pos k) (pos r) last (c ∷ rest) ≡ pick (pos k) (pos (r + pos_part c.weight)) c rest
  unfolding pick
  pick_after fits lo = ground (arith, pos-+ℤ r (pos_part c.weight))

abbrev pub is_named : String → GatewayConfig → Bool
is_named name g = str_eq g.name name

-- The sum of the positive weights of the candidates of a name.
abbrev pub share : String → List GatewayConfig → ℕ
share name [] = 0
share name (c ∷ rest) = (if is_named name c then pos_part c.weight else 0) + share name rest

pub pick-share :
    (name : String) (cs : List GatewayConfig) (last : GatewayConfig) (r : ℕ)
    → r + weight_sum cs < 2 ^ 63
    → count_slots (λ k. is_named name (pick (pos k) (pos r) last cs)) r (weight_sum cs)
      ≡ share name cs
pick-share name [] last r fits = refl
pick-share name (c ∷ rest) last r fits =
    let w : ℕ = pos_part c.weight in
    let f : ℕ → Bool = λ k. is_named name (pick (pos k) (pos r) last (c ∷ rest)) in
    let mine =
      count_slots_cong f (λ _. is_named name c) r w
        (λ k lo hi. ap (is_named name) (pick_before c rest last k r (omega arith) lo hi)) in
    let others =
      count_slots_cong f (λ k. is_named name (pick (pos k) (pos (r + w)) c rest)) (r + w)
        (weight_sum rest)
        (λ k lo hi. ap (is_named name) (pick_after c rest last k r (omega arith) lo)) in
    omega (
      arith,
      count_slots-add f r w (weight_sum rest),
      mine,
      others,
      count_slots_const (is_named name c) r w,
      pick-share name rest c (r + w) (omega arith),
    )

pub total_weight_lem :
    (cs : List GatewayConfig)
    → weight_sum cs < 2 ^ 63
    → total_weight (pos 0) cs ≡ pos (weight_sum cs)
total_weight_lem cs fits = total_weight-eq_sum cs 0 (omega arith) ∙ ap pos (omega arith)
