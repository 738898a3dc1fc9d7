-- ===== src/Redis/Key.antt =====
-- `Store.Key` of internal/adapters/repository/redis/client.go.
pub mod Splitting
use Prim.Native.Char.{Char, code}
use Prim.Native.String.{◌++◌ as ◌+++◌}
use payment_gateway_router.Common.{
  ℕ, ◌≡◌, refl, Bool, String, List, [], ◌∷◌, ◌==◌, str_eq, if◌then◌else◌,
}

abbrev pub is_colon : Char → Bool
is_colon c = code c == b':'

unfoldable pub trim_left_colons : String → String
trim_left_colons String.[] = String.[]
trim_left_colons (String.◌∷◌ c s) =
    let rest = trim_left_colons s in if is_colon c then rest else String.◌∷◌ c s

-- A colon is dropped when nothing but colons follows it.
abbrev pub cons_unless_colon : Char → String → String
cons_unless_colon c String.[] = if is_colon c then String.[] else String.◌∷◌ c String.[]
cons_unless_colon c (String.◌∷◌ d s) = String.◌∷◌ c (String.◌∷◌ d s)

unfoldable pub trim_right_colons : String → String
trim_right_colons String.[] = String.[]
trim_right_colons (String.◌∷◌ c s) = cons_unless_colon c (trim_right_colons s)

-- strings.Trim(s, ":")
unfoldable pub trim_colons : String → String
unfolding trim_left_colons trim_right_colons
trim_colons s = trim_right_colons (trim_left_colons s)

-- strings.Join(parts, ":")
unfoldable pub join_colons : List String → String
join_colons [] = ""
join_colons (part ∷ []) = part
join_colons (part ∷ next ∷ rest) = part +++ ":" +++ join_colons (next ∷ rest)

-- The loop of `Key`: each part trimmed, unless that leaves nothing.
unfoldable pub clean_parts : List String → List String
clean_parts [] = []
clean_parts (part ∷ rest) =
    let clean = trim_colons part in
    let others = clean_parts rest in if str_eq clean "" then others else clean ∷ others

-- `Key` of a store with the given prefix.
unfoldable pub key : String → List String → String
key prefix parts =
    join_colons (if str_eq prefix "" then clean_parts parts else prefix ∷ clean_parts parts)

order_key : key "pgr" ("order" ∷ ":7:" ∷ "" ∷ "attempt" ∷ []) ≡ "pgr:order:7:attempt"
unfolding key clean_parts trim_colons join_colons
order_key = refl
