-- ===== src/Redis/States/Reading.antt =====
-- The Lua tables of gateway states, and the loops of the scripts on them, against the states that they
-- stand for.
use payment_gateway_router.Common.{
  suc, String, ◌≡◌, refl, ap, ◌∙◌, false, some, List, [], ◌∷◌, map, keep, length, All, str_eq,
  eq_iff, Bool-cases, inl, inr,
}
use payment_gateway_router.Go.Int.{ℤ, pos, ltb_ℤ}
use payment_gateway_router.Go.Time.{Time}
use payment_gateway_router.Domain.Errors.{ok}
use payment_gateway_router.Domain.Gateway.{GatewayRuntimeState, HalfOpenProbe, is_half_open}
use payment_gateway_router.Memory.Health.{is_live, with_probes}
use payment_gateway_router.Memory.Health.Cases.{others, holds}
use payment_gateway_router.Redis.Json.{read_string, read_number, read_time}
use payment_gateway_router.Redis.Transactions.{is_text}
use payment_gateway_router.Redis.Server.{Formats, FormatsLaws, IsDated, text, Table}
use payment_gateway_router.Redis.States.{
  state_text, text_state, omit_empty_rows, row_of, probes_of, read_probes, table_state, active_rows,
  release_rows, updated, rows_of, state_table,
}

pub length-map : {A B : Type 0} (f : A → B) (xs : List A) → length (map f xs) ≡ length xs
length-map f [] = refl
length-map f (x ∷ xs) = ap suc (length-map f xs)

-- The probe names a transaction.
abbrev pub IsNamed : HalfOpenProbe → Type 0
IsNamed probe = str_eq probe.transaction_id "" ≡ false

-- What a table says of each field of a state.
pub record ReadsState (formats : Formats) (table : Table) (state : GatewayRuntimeState)
    : Type 0 where
  pub gateway : read_string (table "gateway") ≡ ok state.gateway
  pub kind : table "state" ≡ some (text (state_text state.state))
  pub spelled : text_state (state_text state.state) ≡ state.state
  pub unhealthy_until :
      read_time formats.parse_time (table "unhealthy_until") ≡ ok state.unhealthy_until
  pub in_flight :
      read_number formats.parse_int (pos 0) (table "half_open_in_flight")
      ≡ ok state.half_open_in_flight
  pub probes :
      table "half_open_probes" ≡ omit_empty_rows (map (row_of formats) state.half_open_probes)
  pub updated_at : read_time formats.parse_time (table "updated_at") ≡ ok state.updated_at

module _ (formats : Formats) (laws : FormatsLaws formats) where
  probes_of-map : (ps : List HalfOpenProbe) → probes_of formats (map (row_of formats) ps) ≡ ok ps
  probes_of-map [] = refl
  probes_of-map (p ∷ ps) =
      rw (laws.parse_int-format_int p.expires_at_unix_milli, probes_of-map ps) refl

  read_probes-map :
      (ps : List HalfOpenProbe)
      → read_probes formats (omit_empty_rows (map (row_of formats) ps)) ≡ ok ps
  read_probes-map [] = refl
  read_probes-map (p ∷ ps) = probes_of-map (p ∷ ps)

  pub table_state-Reads :
      (table : Table) (state : GatewayRuntimeState)
      → ReadsState formats table state
      → table_state formats table ≡ ok state
  unfolding table_state
  table_state-Reads table state r =
      rw
        (
          r.gateway,
          r.kind,
          r.unhealthy_until,
          r.in_flight,
          r.probes,
          read_probes-map state.half_open_probes,
          r.updated_at,
          r.spelled,
        )
        refl

  pub rows_of-map :
      (ps : List HalfOpenProbe)
      → rows_of (omit_empty_rows (map (row_of formats) ps)) ≡ map (row_of formats) ps
  rows_of-map [] = refl
  rows_of-map (p ∷ ps) = refl

  -- The loop of the scripts keeps the probes that the in-memory repository keeps.
  pub active_rows-map :
      (now : ℤ) (ps : List HalfOpenProbe)
      → All IsNamed ps
      → active_rows formats now (map (row_of formats) ps)
        ≡ ok (map (row_of formats) (keep (is_live now) ps))
  unfolding active_rows
  active_rows-map now [] h = refl
  active_rows-map now (p ∷ ps) (h, hs) = elim (Bool-cases (ltb_ℤ now p.expires_at_unix_milli)) [
    | inl e ↦
        rw (laws.parse_int-format_int p.expires_at_unix_milli, active_rows-map now ps hs, e, h) refl
    | inr e ↦
        rw (laws.parse_int-format_int p.expires_at_unix_milli, active_rows-map now ps hs, e, h) refl
  ]

  pub release_rows-map :
      (t : String) (ps : List HalfOpenProbe)
      → release_rows t (map (row_of formats) ps) ≡ (map (row_of formats) (others t ps), holds t ps)
  unfolding release_rows
  release_rows-map t [] = refl
  release_rows-map t (p ∷ ps) = elim (Bool-cases (str_eq p.transaction_id t)) [
    | inl e ↦ rw (release_rows-map t ps, e) refl
    | inr e ↦ rw (release_rows-map t ps, e) refl
  ]

  -- The script's assignments are those of the in-memory repository.
  pub updated-Reads :
      (table : Table) (state : GatewayRuntimeState) (ps : List HalfOpenProbe) (at : Time)
      → IsDated at
      → ReadsState formats table state
      → ReadsState formats
          (updated formats table (map (row_of formats) ps) (formats.format_time at))
          (record (with_probes state ps) { updated_at = at })
  updated-Reads table state [] at dated r = record {
    gateway = r.gateway;
    kind = r.kind;
    spelled = r.spelled;
    unhealthy_until = r.unhealthy_until;
    in_flight = laws.parse_int-format_int (pos 0);
    probes = refl;
    updated_at = laws.parse_time-format_time at dated;
  }
  updated-Reads table state (p ∷ ps) at dated r = record {
    gateway = r.gateway;
    kind = r.kind;
    spelled = r.spelled;
    unhealthy_until = r.unhealthy_until;
    in_flight =
        ap (λ n. formats.parse_int (formats.format_int (pos n)))
          (length-map (row_of formats) (p ∷ ps))
        ∙ laws.parse_int-format_int (pos (length (p ∷ ps)));
    probes = refl;
    updated_at = laws.parse_time-format_time at dated;
  }

-- The object that is written for a state, whose times can be written, is read as that state.
pub state_table-Reads :
    (formats : Formats) (state : GatewayRuntimeState)
    → FormatsLaws formats
    → text_state (state_text state.state) ≡ state.state
    → IsDated state.unhealthy_until
    → IsDated state.updated_at
    → ReadsState formats (state_table formats state) state
unfolding state_table
state_table-Reads formats state laws spelled until updated = record {
  gateway = refl;
  kind = refl;
  spelled = spelled;
  unhealthy_until = laws.parse_time-format_time state.unhealthy_until until;
  in_flight = laws.parse_int-format_int state.half_open_in_flight;
  probes = refl;
  updated_at = laws.parse_time-format_time state.updated_at updated;
}

text_is_half_open : (s : String) → str_eq s "half_open" ≡ is_half_open (text_state s)
text_is_half_open s = elim (Bool-cases (str_eq s "healthy")) [
  | inl e ↦ rw ((eq_iff s "healthy").0 e) refl
  | inr e ↦ elim (Bool-cases (str_eq s "unhealthy")) [
    | inl f ↦ rw ((eq_iff s "unhealthy").0 f) refl
    | inr f ↦ elim (Bool-cases (str_eq s "half_open")) [
      | inl g ↦ rw (e, f, g) refl
      | inr g ↦ rw (e, f, g) refl
    ]
  ]
]

-- The test of the scripts.
pub half_open_test :
    (formats : Formats) (table : Table) (state : GatewayRuntimeState)
    → ReadsState formats table state
    → is_text (table "state") "half_open" ≡ is_half_open state.state
half_open_test formats table state r =
    rw r.kind (text_is_half_open (state_text state.state) ∙ ap is_half_open r.spelled)
