-- ===== src/Service/Routing/Fairness.antt =====
-- The shares of the gateways in a row of selections by `selectWeighted` of
-- internal/service/routing_service.go.
use native.Mathlib.Nat.{add-zero, add-mod_right, mod-eq_of_lt}
use payment_gateway_router.Common.{
  ℕ, zero, suc, ◌+◌, ◌%◌, ◌^◌, ◌<◌, ◌≡◌, refl, ◌∙◌, ap, Bool, true, false, String, Option, none,
  some, List, [], ◌∷◌, arith, if◌then◌else◌, count_slots, count_slots_rotate, sym, count_slots-add,
  count_slots_cong,
}
use payment_gateway_router.Go.Int.{pos}
use payment_gateway_router.Domain.Errors.{Result, ok, err}
use payment_gateway_router.Domain.Config.{GatewayConfig}
use payment_gateway_router.Service.World.{World}
use payment_gateway_router.Service.Routing.{choose, counts, pick, select_weighted}
use payment_gateway_router.Service.Routing.Selection.{
  weight_sum, share, is_named, pick-share, total_weight_lem,
}

abbrev pub chose : String → Option GatewayConfig → Bool
chose name none = false
chose name (some g) = is_named name g

abbrev pub result_of : Result (Option GatewayConfig) → Option GatewayConfig
result_of (ok o) = o
result_of (err e) = none

-- How often a name is chosen in a row of `n` selections.
abbrev pub times_chosen : {T H B : Type 0} → String → ℕ → List GatewayConfig → World T H B → ℕ
times_chosen name zero cs w = 0
times_chosen name (suc n) cs w =
    let (r, w') = select_weighted cs w in
    (if chose name (result_of r) then 1 else 0) + times_chosen name n cs w'

pub choose_lem :
    (counter : ℕ) (c : GatewayConfig) (rest : List GatewayConfig)
    → 0 < weight_sum (c ∷ rest)
    → weight_sum (c ∷ rest) < 2 ^ 63
    → choose counter (c ∷ rest)
      ≡ some (pick (pos (counter % weight_sum (c ∷ rest))) (pos 0) c (c ∷ rest))
unfolding choose
choose_lem counter c rest some_weight fits = rw (total_weight_lem (c ∷ rest) fits) (ground arith)

counts_lem :
    (cs : List GatewayConfig) → 0 < weight_sum cs → weight_sum cs < 2 ^ 63 → counts cs ≡ true
unfolding counts
counts_lem [] h fits = absurd (omega arith)
counts_lem (c ∷ rest) h fits = rw (total_weight_lem (c ∷ rest) fits) (ground arith)

times_chosen-eq_count :
    {T H B : Type 0} (name : String) (n : ℕ) (cs : List GatewayConfig) (w : World T H B)
    → counts cs ≡ true
    → w.routing_counter + n < 2 ^ 64
    → times_chosen name n cs w
      ≡ count_slots (λ k. chose name (choose k cs)) (w.routing_counter + 1) n
unfolding select_weighted
times_chosen-eq_count name zero cs w h fits = refl
times_chosen-eq_count name (suc n) cs w h fits =
    let k : ℕ = w.routing_counter + 1 in
    let f : ℕ → Bool = λ j. chose name (choose j cs) in
    let next : w.routing_counter + 1 ≡ (w.routing_counter + 1) % 2 ^ 64 = omega arith in
    let one : 1 + n ≡ suc n = omega arith in
    let front = simp (add-zero) at (ap (count_slots f k) (sym one) ∙ count_slots-add f k 1 n) in
    rw (h, ← next)
      (omega (
        arith,
        front,
        times_chosen-eq_count name n cs (record w { routing_counter = k }) h (omega arith),
      ))

-- In any row of as many selections as the weights of the candidates add up to, each gateway is
-- chosen exactly as often as its weight says, wherever the counter stands: if the weights add up to
-- a positive int and the counter does not pass 2^64 in that row.
pub times_chosen-eq_share :
    {T H B : Type 0} (name : String) (cs : List GatewayConfig) (w : World T H B)
    → 0 < weight_sum cs
    → weight_sum cs < 2 ^ 63
    → w.routing_counter + weight_sum cs < 2 ^ 64
    → times_chosen name (weight_sum cs) cs w ≡ share name cs
times_chosen-eq_share name [] w h fits room = refl
times_chosen-eq_share name (c ∷ rest) w h fits room =
    let total : ℕ = weight_sum (c ∷ rest) in
    let f : ℕ → Bool = λ k. chose name (choose k (c ∷ rest)) in
    let slot : ℕ → Bool = λ k. is_named name (pick (pos k) (pos 0) c (c ∷ rest)) in
    let to_slot : (k : ℕ) → f k ≡ slot (k % total) =
      λ k. ap (chose name) (choose_lem k c rest h fits) in
    times_chosen-eq_count name total (c ∷ rest) w (counts_lem (c ∷ rest) h fits) room
    ∙ count_slots_rotate f total (w.routing_counter + 1)
        (λ k. to_slot (k + total) ∙ ap slot (add-mod_right k total) ∙ sym (to_slot k))
    ∙ count_slots_cong f slot 0 total (λ k lo hi. to_slot k ∙ ap slot (mod-eq_of_lt (omega arith)))
    ∙ pick-share name (c ∷ rest) c 0 (omega arith)
