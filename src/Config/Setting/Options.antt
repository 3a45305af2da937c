-- ===== src/Config/Setting/Options.antt =====
-- What `getOption` and the address generator's parser accept.
use cgraomp.Prelude.{
  ℕ, ◌-◌, ◌^◌, ◌<◌, ◌≤◌, ◌≡◌, ◌↔◌, String, true, false, Option-cases, some, arith, inl, inr,
}
use cgraomp.Prelude.Int.{ℤ, pos, negsuc, to_int}
use cgraomp.Prelude.StringMap
use cgraomp.Errors.{ok}
use cgraomp.Json.{Json}
use cgraomp.Config.Setting.{
  affine, opt_enable_key, opt_type_key, ag_max_nest_key, get_option, create_affine_ag,
}

to_int_small : (n : ℕ) → n < 2 ^ 31 → to_int (pos n) ≡ pos n
to_int_small n h = ground arith

to_int_wraps : (n : ℕ) → 2 ^ 31 ≤ n → n < 2 ^ 32 → to_int (pos n) ≡ negsuc (2 ^ 32 - 1 - n)
to_int_wraps n h k = ground arith

module _ {D : Type 0} (J : Json D) where
  open J use {Value, Object, get, as_string, as_boolean, as_integer, as_object}

  -- The configuration `obj` grants a setting under the key: it denies the option, or it allows it
  -- and names a type that is known.
  pub data Grants {S : Type 0} (key : String) (disabled : S) (obj : Object)
      (settings : StringMap.StringMap S) (s : S) : Type 0 where
    denies :
        (cond : Value) (cond_obj : Object) (v : Value)
        → get obj key ≡ some cond
        → as_object cond ≡ some cond_obj
        → get cond_obj opt_enable_key ≡ some v
        → as_boolean v ≡ some false
        → s ≡ disabled
        → Grants key disabled obj settings s
    allows :
        (cond : Value) (cond_obj : Object) (v t : Value) (name : String)
        → get obj key ≡ some cond
        → as_object cond ≡ some cond_obj
        → get cond_obj opt_enable_key ≡ some v
        → as_boolean v ≡ some true
        → get cond_obj opt_type_key ≡ some t
        → as_string t ≡ some name
        → StringMap.find name settings ≡ some s
        → Grants key disabled obj settings s

  module _ {S : Type 0} (key : String) (disabled : S) (obj : Object) (filename : String)
      (settings : StringMap.StringMap S) (s : S) where
    get_option-Grants :
        get_option J key disabled obj filename settings ≡ ok s → Grants key disabled obj settings s
    unfolding get_option
    get_option-Grants h = elim (Option-cases (get obj key)) [
      | inl e ↦ absurd (ground arith)
      | inr (cond, e) ↦ elim (Option-cases (as_object cond)) [
        | inl e' ↦ absurd (ground arith)
        | inr (cond_obj, e') ↦ elim (Option-cases (get cond_obj opt_enable_key)) [
          | inl e2 ↦ absurd (ground arith)
          | inr (v, e2) ↦ elim (Option-cases (as_boolean v)) [
            | inl e3 ↦ absurd (ground arith)
            | inr (false, e3) ↦ denies cond cond_obj v e e' e2 e3 (ground arith)
            | inr (true, e3) ↦ elim (Option-cases (get cond_obj opt_type_key)) [
              | inl e4 ↦ absurd (ground arith)
              | inr (t, e4) ↦ elim (Option-cases (as_string t)) [
                | inl e5 ↦ absurd (ground arith)
                | inr (name, e5) ↦ allows cond cond_obj v t name e e' e2 e3 e4 e5 (ground arith)
              ]
            ]
          ]
        ]
      ]
    ]

    Grants-get_option :
        Grants key disabled obj settings s → get_option J key disabled obj filename settings ≡ ok s
    unfolding get_option
    Grants-get_option (denies cond cond_obj v e e1 e2 e3 e4) = ground arith
    Grants-get_option (allows cond cond_obj v t name e e1 e2 e3 e4 e5 e6) = ground arith

    -- An option of the configuration is read as a setting exactly if the configuration denies the
    -- option and the setting is the disabled one, or allows it and names a known type that stands
    -- for the setting.
    pub get_option_iff :
        (get_option J key disabled obj filename settings ≡ ok s)
        ↔ Grants key disabled obj settings s
    get_option_iff = (get_option-Grants, Grants-get_option)

  -- A positive nesting limit below 2 ^ 31 is stored in the address generator unchanged.
  pub affine_in_range :
      (int64_text : ℤ → String) (obj : Object) (filename : String) (v : Value) (n : ℕ)
      → get obj ag_max_nest_key ≡ some v
      → as_integer v ≡ some (pos n)
      → 0 < n
      → n < 2 ^ 31
      → create_affine_ag J int64_text obj filename ≡ ok (affine (pos n))
  unfolding create_affine_ag
  affine_in_range int64_text obj filename v n found int positive small =
      ground (arith, to_int_small n small)

  -- A nesting limit of at least 2 ^ 31 and below 2 ^ 32 is accepted, and the address generator is
  -- made with that limit minus 2 ^ 32, a negative number.
  pub affine_overflow :
      (int64_text : ℤ → String) (obj : Object) (filename : String) (v : Value) (n : ℕ)
      → get obj ag_max_nest_key ≡ some v
      → as_integer v ≡ some (pos n)
      → 2 ^ 31 ≤ n
      → n < 2 ^ 32
      → create_affine_ag J int64_text obj filename ≡ ok (affine (negsuc (2 ^ 32 - 1 - n)))
  unfolding create_affine_ag
  affine_overflow int64_text obj filename v n found int large small =
      ground (arith, to_int_wraps n large small)
