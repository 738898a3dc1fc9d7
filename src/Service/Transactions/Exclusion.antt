-- ===== src/Service/Transactions/Exclusion.antt =====
-- `Initiate` of internal/service/transaction_service.go and the in-memory blacklist of an order's
-- gateways.
use payment_gateway_router.Common.{
  ◌==◌, leb, ◌&&◌, ℕ, ◌≡◌, ◌≤◌, ◌<◌, ◌^◌, refl, ap, ◌∙◌, String, true, false, none, some, List,
  arith, str_eq, eq_iff, count, length, Bool-cases, inl, inr, if◌then◌else◌,
}
use payment_gateway_router.Go.Int.{pos}
use payment_gateway_router.Go.Dict.{Dict}
use payment_gateway_router.Action.Post.{
  Post-mono, Post, bind-Post, step-Post, any-Post, Anything, ok-Post, on_error-Post,
}
use payment_gateway_router.Domain.Transaction.{Transaction, success, failure}
use payment_gateway_router.Ports.{
  TransactionRepository, GatewayHealthRepository, GatewayClientRegistry,
}
use payment_gateway_router.Memory.Blacklist
use payment_gateway_router.Memory.Blacklist.History.{
  Outcome, record_all, is_outcome, blacklisted_iff,
}
use payment_gateway_router.Service.World.{Deps, World, new_id}
use payment_gateway_router.Service.Blacklist as OrderBlacklist
use payment_gateway_router.Service.Routing.{GatewaySelection, contains}
use payment_gateway_router.Service.Routing.Exclusion.{select_gateway-NotExcluded}
use payment_gateway_router.Service.Transactions.{
  InitiateTransactionInput, initiate, initiate_on, release_selected, blacklisted_gateways,
}

kept_out :
    (successes failures n : ℕ)
    → successes ≡ 0
    → n ≤ failures
    → (if successes == 0 && leb n failures then some (tt {0}) else none) ≡ some tt
kept_out successes failures n e h = ground arith

differs :
    (excluded : Dict (Unit {0})) (a g : String)
    → contains excluded a ≡ false
    → contains excluded g ≡ true
    → str_eq a g ≡ false
differs excluded a g out inside = elim (Bool-cases (str_eq a g)) [
  | inr e ↦ e
  | inl e ↦ cc (ap (contains excluded) ((eq_iff a g).0 e), out, inside)
]

module _ {T H : Type 0} (transactions : TransactionRepository T)
    (health : GatewayHealthRepository H) (gateways : GatewayClientRegistry) where
  abbrev pub deps : Deps T H Blacklist.Store
  deps = record {
    transactions = transactions;
    health = health;
    order_gateways = some Blacklist.repository;
    gateways = gateways;
  }

  initiate_on-gateway :
      (t : String) (input : InitiateTransactionInput) (selection : GatewaySelection)
      (w : World T H Blacklist.Store)
      → Post
          (λ made w'. made.gateway ≡ selection.gateway.name)
          Anything
          (initiate_on deps t input selection w)
  unfolding initiate_on
  initiate_on-gateway t input selection w =
      let Q = λ (made : Transaction) (w' : World T H Blacklist.Store).
        made.gateway ≡ selection.gateway.name in
      any-Post Q Anything _ _ w (λ _ _. tt)
        (λ client w1.
          any-Post Q Anything _ _ w1 (λ _ _. tt)
            (λ attempt_no w2.
              any-Post Q Anything _ _ w2 (λ _ _. tt)
                (λ at w3.
                  any-Post Q Anything _ _ w3 (λ _ _. tt)
                    (λ initiation w4. any-Post Q Anything _ _ w4 (λ _ _. tt) (λ _ w5. refl)))))

  -- That the order's failures keep a gateway out.
  abbrev pub KeptOut : ℕ → List Outcome → String → String → Type 0
  KeptOut n os o g =
      (count (is_outcome success o g) os ≡ 0) × (n ≤ count (is_outcome failure o g) os)

  excluded-contains :
      (n : ℕ) (os : List Outcome) (o g : String) (w : World T H Blacklist.Store)
      → 0 < n
      → length os < 2 ^ 63
      → str_eq o "" ≡ false
      → w.blacklist ≡ record_all (pos n) os Blacklist.new
      → KeptOut n os o g
      → Post (λ excluded w'. contains excluded g ≡ true) Anything (blacklisted_gateways deps o w)
  unfolding blacklisted_gateways OrderBlacklist.blacklisted_gateways
  excluded-contains n os o g w one fits named e (succeeded, failed) =
      let (found, answer, lookup) = blacklisted_iff n os o g one fits in
      rw (named, e)
        (ok-Post (λ excluded. contains excluded g ≡ true) Anything _ found answer
          (ap (elim [ none ↦ false | some _ ↦ true ]) (lookup ∙ kept_out _ _ n succeeded failed)))

  -- After any outcomes recorded under a positive threshold `n`, fewer than 2^63 of them, a transaction
  -- that `Initiate` returns for a named order is not on a gateway that has failed that order `n`
  -- times or more and has never succeeded for it.
  pub initiate-AvoidsFailed :
      (n : ℕ) (os : List Outcome) (g : String) (input : InitiateTransactionInput)
      (w : World T H Blacklist.Store)
      → 0 < n
      → length os < 2 ^ 63
      → str_eq input.order_id "" ≡ false
      → w.blacklist ≡ record_all (pos n) os Blacklist.new
      → KeptOut n os input.order_id g
      → Post (λ made w'. str_eq made.gateway g ≡ false) Anything (initiate deps input w)
  unfolding initiate
  initiate-AvoidsFailed n os g input w one fits named e out =
      let Q =
        λ (made : Transaction) (w' : World T H Blacklist.Store). str_eq made.gateway g ≡ false in
      step-Post Q Anything new_id _ _ _ w refl (
        bind-Post (λ excluded w'. contains excluded g ≡ true) Q Anything
          (blacklisted_gateways deps input.order_id) _ _
          (excluded-contains n os input.order_id g _ one fits named e out)
          (λ excluded w1 inside.
            bind-Post (λ selection w'. contains excluded selection.gateway.name ≡ false) Q Anything
              _ _ w1 (select_gateway-NotExcluded deps _ w1)
              (λ selection w2 outside.
                on_error-Post (λ made. str_eq made.gateway g ≡ false)
                  (initiate_on deps (w.ids w.ids_used) input selection)
                  (λ cause. release_selected deps selection (w.ids w.ids_used)) w2
                  (Post-mono (λ made w'. made.gateway ≡ selection.gateway.name) Q Anything Anything
                    _ (initiate_on-gateway (w.ids w.ids_used) input selection w2)
                    (λ made w' e. rw e (differs excluded selection.gateway.name g outside inside))
                    (λ _ _ _. tt)))))
