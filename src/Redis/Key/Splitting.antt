-- ===== src/Redis/Key/Splitting.antt =====
-- The parts of a key that `Store.Key` of internal/adapters/repository/redis/client.go builds.
use Prim.Native.Char.{Char}
use Prim.Native.String.append
use Prim.Native.String.{◌++◌ as ◌+++◌}
use payment_gateway_router.Common.{
  ◌≡◌, refl, sym, ap, ◌∙◌, Bool, true, false, not, ◌&&◌, String, List, [], ◌∷◌, All, str_eq, eq_iff,
  eq_refl, if◌then◌else◌, Bool-cases, inl, inr,
}
use payment_gateway_router.Redis.Key.{
  is_colon, trim_left_colons, trim_right_colons, trim_colons, join_colons, clean_parts, key,
  cons_unless_colon,
}

abbrev pub is_colon_free : String → Bool
is_colon_free String.[] = true
is_colon_free (String.◌∷◌ c s) = not (is_colon c) && is_colon_free s

-- A part that `Key` keeps as it is.
abbrev pub Plain : String → Type 0
Plain part = (is_colon_free part ≡ true) × (str_eq part "" ≡ false)

abbrev cons_first : Char → List String → List String
cons_first c [] = String.◌∷◌ c String.[] ∷ []
cons_first c (part ∷ parts) = String.◌∷◌ c part ∷ parts

-- The parts of a text between its colons.
unfoldable pub split_colons : String → List String
split_colons String.[] = String.[] ∷ []
split_colons (String.◌∷◌ c s) =
    let rest = split_colons s in if is_colon c then String.[] ∷ rest else cons_first c rest

split_colons-Plain : (s : String) → is_colon_free s ≡ true → split_colons s ≡ s ∷ []
unfolding split_colons
split_colons-Plain String.[] h = refl
split_colons-Plain (String.◌∷◌ c s) h = elim (Bool-cases (is_colon c)) [
  | inl e ↦ cc (rw e at h)
  | inr e ↦ rw (e, split_colons-Plain s (rw e at h)) refl
]

split_colons-colon :
    (c : Char) (t : String)
    → is_colon c ≡ true
    → split_colons (String.◌∷◌ c String.[] +++ t) ≡ String.[] ∷ split_colons t
unfolding split_colons
split_colons-colon c t e = rw (append.cons c String.[] t, append.nil t, e) refl

split_colons-append :
    (s t : String) → is_colon_free s ≡ true → split_colons (s +++ ":" +++ t) ≡ s ∷ split_colons t
unfolding split_colons
split_colons-append String.[] t h = rw (append.nil (":" +++ t)) (split_colons-colon _ t refl)
split_colons-append (String.◌∷◌ c s) t h = elim (Bool-cases (is_colon c)) [
  | inl e ↦ cc (rw e at h)
  | inr e ↦ rw (append.cons c s (":" +++ t), e, split_colons-append s t (rw e at h)) refl
]

trim_left_colons-Plain : (s : String) → is_colon_free s ≡ true → trim_left_colons s ≡ s
unfolding trim_left_colons
trim_left_colons-Plain String.[] h = refl
trim_left_colons-Plain (String.◌∷◌ c s) h = elim (Bool-cases (is_colon c)) [
  | inl e ↦ cc (rw e at h)
  | inr e ↦ rw e refl
]

cons_unless_colon-Plain :
    (c : Char) (s : String) → is_colon c ≡ false → cons_unless_colon c s ≡ String.◌∷◌ c s
cons_unless_colon-Plain c String.[] e = rw e refl
cons_unless_colon-Plain c (String.◌∷◌ d s) e = refl

trim_right_colons-Plain : (s : String) → is_colon_free s ≡ true → trim_right_colons s ≡ s
unfolding trim_right_colons
trim_right_colons-Plain String.[] h = refl
trim_right_colons-Plain (String.◌∷◌ c s) h = elim (Bool-cases (is_colon c)) [
  | inl e ↦ cc (rw e at h)
  | inr e ↦ rw (trim_right_colons-Plain s (rw e at h)) (cons_unless_colon-Plain c s e)
]

trim_colons-Plain : (s : String) → is_colon_free s ≡ true → trim_colons s ≡ s
unfolding trim_colons
trim_colons-Plain s h = rw (trim_left_colons-Plain s h) (trim_right_colons-Plain s h)

clean_parts-Plain : (parts : List String) → All Plain parts → clean_parts parts ≡ parts
unfolding clean_parts
clean_parts-Plain [] h = refl
clean_parts-Plain (part ∷ rest) ((free, named), h) =
    rw (trim_colons-Plain part free, named, clean_parts-Plain rest h) refl

split_colons-join_colons :
    (part : String) (parts : List String)
    → All Plain (part ∷ parts)
    → split_colons (join_colons (part ∷ parts)) ≡ part ∷ parts
unfolding join_colons
split_colons-join_colons part [] ((free, named), h) = split_colons-Plain part free
split_colons-join_colons part (next ∷ rest) ((free, named), h) =
    rw
      (
        split_colons-append part (join_colons (next ∷ rest)) free,
        split_colons-join_colons next rest h,
      )
      refl

-- A key gives its parts back: split at its colons, the key that `Store.Key` makes of parts that are
-- not empty and have no colon is the store's prefix and those parts, in their order, if the prefix is
-- such a text too. So two keys of such parts are the same only if their parts are.
pub split_colons-key :
    (prefix : String) (parts : List String)
    → All Plain (prefix ∷ parts)
    → split_colons (key prefix parts) ≡ prefix ∷ parts
unfolding key
split_colons-key prefix parts ((free, named), h) =
    rw (named, clean_parts-Plain parts h) (split_colons-join_colons prefix parts ((free, named), h))

abbrev tail_of : List String → List String
tail_of [] = []
tail_of (_ ∷ rest) = rest

pub key_injective :
    (prefix : String) (parts others : List String)
    → All Plain (prefix ∷ parts)
    → All Plain (prefix ∷ others)
    → key prefix parts ≡ key prefix others
    → parts ≡ others
key_injective prefix parts others h k e =
    ap tail_of
      (sym (split_colons-key prefix parts h) ∙ ap split_colons e ∙ split_colons-key prefix others k)

-- Keys that differ in one part, which `back` finds in the parts, are told apart by it.
pub key_eq :
    (prefix : String) (parts_of : String → List String) (back : List String → String) (x y : String)
    → ((z : String) → back (parts_of z) ≡ z)
    → All Plain (prefix ∷ parts_of x)
    → All Plain (prefix ∷ parts_of y)
    → str_eq (key prefix (parts_of x)) (key prefix (parts_of y)) ≡ str_eq x y
key_eq prefix parts_of back x y found h k =
    let at : String → String = λ z. key prefix (parts_of z) in
    elim (Bool-cases (str_eq x y)) [
      | inl e ↦ rw ((eq_iff x y).0 e) (eq_refl (at y) ∙ sym (eq_refl y))
      | inr e ↦ elim (Bool-cases (str_eq (at x) (at y))) [
        | inr f ↦ f ∙ sym e
        | inl f ↦
            let same : x ≡ y =
              sym (found x)
              ∙ ap back
                  (key_injective prefix (parts_of x) (parts_of y) h k ((eq_iff (at x) (at y)).0 f))
              ∙ found y in
            cc (e, (eq_iff x y).1 same)
      ]
    ]

-- The second part of a key.
unfoldable pub second_part : List String → String
second_part (_ ∷ part ∷ _) = part
second_part _ = ""
