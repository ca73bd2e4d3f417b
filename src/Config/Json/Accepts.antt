-- ===== src/Config/Json/Accepts.antt =====
-- The scan of internal/config/secret.go accepts exactly the values that the schema allows.
use nexus_relay.Common.{
  ap, ℕ, zero, suc, ◌+◌, ◌*◌, ◌≤◌, ◌≡◌, ◌↔◌, inl, inr, refl, String, Bool, true, false, not, ◌&&◌,
  List, [], ◌∷◌, contains, length, Result, ok, err, ◌>>=◌, fail_if, or_fail, arith, Bool-cases,
  Option-cases,
}
use nexus_relay.Config.Library.{Token}
use nexus_relay.Config.Json.{
  Schema, Fields, leaf, object, array, field_schema, value, members, items, scan,
}
use nexus_relay.Config.Json.Tree.{
  Json, Members, Items, text_value, scalar_value, object_value, array_value, closed, member, ended,
  item, emit, emit_members, emit_items, conforms, conforms_members, conforms_items, weight,
  weight_members, weight_items, weight_fits,
}

mutual
  unfolding weight

  weight_positive : (j : Json) → 1 ≤ weight j
  weight_positive (text_value s) = omega arith
  weight_positive scalar_value = omega arith
  weight_positive (object_value ms) = omega arith
  weight_positive (array_value xs) = omega arith

-- No value begins with the end of an array.
items_step :
    (j : Json) (schema : Schema) (n : ℕ) (rest : List Token)
    → scan (suc n) (items schema) (emit j rest)
      ≡ (scan n (value schema) (emit j rest) >>= λ later. scan n (items schema) later)
unfolding scan emit
items_step (text_value s) schema n rest = refl
items_step scalar_value schema n rest = refl
items_step (object_value ms) schema n rest = refl
items_step (array_value xs) schema n rest = refl

three_parts :
    (seen good later : Bool)
    → (not seen && good && later) ≡ true
    → (seen ≡ false) × (good ≡ true) × (later ≡ true)
three_parts seen good later h = ground arith

two_parts : (good later : Bool) → (good && later) ≡ true → (good ≡ true) × (later ≡ true)
two_parts good later h = ground arith

mutual
  unfolding scan emit conforms weight fail_if or_fail

  pub accepts :
      (j : Json) (schema : Schema) (n : ℕ) (rest : List Token)
      → weight j ≤ n
      → conforms schema j ≡ true
      → scan n (value schema) (emit j rest) ≡ ok rest
  accepts j schema zero rest w c = ground (arith, w, weight_positive j)
  accepts (text_value s) schema (suc n) rest w c = refl
  accepts scalar_value schema (suc n) rest w c = refl
  accepts (object_value ms) (object fields) (suc n) rest w c =
      accepts_members ms fields [] n rest (omega (arith, w)) c
  accepts (array_value xs) (array schema) (suc n) rest w c =
      accepts_items xs schema n rest (omega (arith, w)) c
  accepts j schema (suc n) rest w c = cc

  accepts_members :
      (ms : Members) (fields : Fields) (seen : List String) (n : ℕ) (rest : List Token)
      → weight_members ms ≤ n
      → conforms_members fields seen ms ≡ true
      → scan n (members fields seen) (emit_members ms rest) ≡ ok rest
  accepts_members closed fields seen zero rest w c = ground arith
  accepts_members closed fields seen (suc n) rest w c = refl
  accepts_members (member name j ms) fields seen zero rest w c = ground arith
  accepts_members (member name j ms) fields seen (suc n) rest w c =
      elim (Option-cases (field_schema fields name)) [
        | inl e ↦ ground (arith, rw e at c)
        | inr (schema, e) ↦
            let parts =
              three_parts (contains name seen) (conforms schema j)
                (conforms_members fields (name ∷ seen) ms) (rw e at c) in
            rw (parts.0, e, accepts j schema n (emit_members ms rest) (omega (arith, w)) parts.1)
              (accepts_members ms fields (name ∷ seen) n rest (omega (arith, w)) parts.2)
      ]

  accepts_items :
      (xs : Items) (schema : Schema) (n : ℕ) (rest : List Token)
      → weight_items xs ≤ n
      → conforms_items schema xs ≡ true
      → scan n (items schema) (emit_items xs rest) ≡ ok rest
  accepts_items ended schema zero rest w c = ground arith
  accepts_items ended schema (suc n) rest w c = refl
  accepts_items (item j xs) schema zero rest w c = ground arith
  accepts_items (item j xs) schema (suc n) rest w c =
      let parts = two_parts (conforms schema j) (conforms_items schema xs) c in
      rw
        (
          items_step j schema n (emit_items xs rest),
          accepts j schema n (emit_items xs rest) (omega (arith, w)) parts.0,
        )
        (accepts_items xs schema n rest (omega (arith, w)) parts.1)

abbrev pub is_ok {ℓ} : {A : Type ℓ} → Result A → Bool
is_ok (ok _) = true
is_ok (err _) = false

bind_rejected {ℓ κ} :
    {A : Type ℓ} {B : Type κ} (m : Result A) (f : A → Result B)
    → is_ok m ≡ false
    → is_ok (m >>= f) ≡ false
bind_rejected (ok a) f h = cc
bind_rejected (err e) f h = refl

later_false :
    (seen : Bool) (later : Bool)
    → seen ≡ false
    → (not seen && true && later) ≡ false
    → later ≡ false
later_false seen later h c = ground arith

mutual
  unfolding scan emit conforms weight fail_if or_fail

  rejects :
      (j : Json) (schema : Schema) (n : ℕ) (rest : List Token)
      → weight j ≤ n
      → conforms schema j ≡ false
      → is_ok (scan n (value schema) (emit j rest)) ≡ false
  rejects j schema zero rest w c = refl
  rejects (text_value s) schema (suc n) rest w c = cc
  rejects scalar_value schema (suc n) rest w c = cc
  rejects (object_value ms) (object fields) (suc n) rest w c =
      rejects_members ms fields [] n rest (omega (arith, w)) c
  rejects (array_value xs) (array schema) (suc n) rest w c =
      rejects_items xs schema n rest (omega (arith, w)) c
  rejects (object_value ms) leaf (suc n) rest w c = refl
  rejects (object_value ms) (array schema) (suc n) rest w c = refl
  rejects (array_value xs) leaf (suc n) rest w c = refl
  rejects (array_value xs) (object fields) (suc n) rest w c = refl

  rejects_members :
      (ms : Members) (fields : Fields) (seen : List String) (n : ℕ) (rest : List Token)
      → weight_members ms ≤ n
      → conforms_members fields seen ms ≡ false
      → is_ok (scan n (members fields seen) (emit_members ms rest)) ≡ false
  rejects_members closed fields seen n rest w c = cc
  rejects_members (member name j ms) fields seen zero rest w c = refl
  rejects_members (member name j ms) fields seen (suc n) rest w c =
      elim (Bool-cases (contains name seen)) [
        | inl twice ↦ rw twice refl
        | inr new ↦ elim (Option-cases (field_schema fields name)) [
          | inl e ↦ rw (new, e) refl
          | inr (schema, e) ↦ elim (Bool-cases (conforms schema j)) [
            | inl good ↦
                rw (new, e, accepts j schema n (emit_members ms rest) (omega (arith, w)) good)
                  (rejects_members ms fields (name ∷ seen) n rest (omega (arith, w))
                    (later_false (contains name seen) _ new (rw (e, good) at c)))
            | inr bad ↦
                rw (new, e)
                  (bind_rejected (scan n (value schema) (emit j (emit_members ms rest))) _
                    (rejects j schema n (emit_members ms rest) (omega (arith, w)) bad))
          ]
        ]
      ]

  rejects_items :
      (xs : Items) (schema : Schema) (n : ℕ) (rest : List Token)
      → weight_items xs ≤ n
      → conforms_items schema xs ≡ false
      → is_ok (scan n (items schema) (emit_items xs rest)) ≡ false
  rejects_items ended schema n rest w c = cc
  rejects_items (item j xs) schema zero rest w c = refl
  rejects_items (item j xs) schema (suc n) rest w c =
      rw (items_step j schema n (emit_items xs rest)) (elim (Bool-cases (conforms schema j)) [
        | inl good ↦
            rw (accepts j schema n (emit_items xs rest) (omega (arith, w)) good)
              (rejects_items xs schema n rest (omega (arith, w)) (rw good at c))
        | inr bad ↦
            bind_rejected (scan n (value schema) (emit j (emit_items xs rest))) _
              (rejects j schema n (emit_items xs rest) (omega (arith, w)) bad)
      ])

pub weight_enough : (j : Json) → weight j ≤ 2 * length (emit j []) + 1
weight_enough j = omega (arith, weight_fits j [])

-- On the fuel that strictJSON gives it, the scan of a value's tokens goes to their end exactly when
-- the schema allows the value: objects and arrays only where it has them, no unknown and no repeated
-- field, at any depth.
pub scan_iff :
    (j : Json) (schema : Schema)
    → (scan (2 * length (emit j []) + 1) (value schema) (emit j []) ≡ ok [])
      ↔ (conforms schema j ≡ true)
scan_iff j schema =
    let enough = weight_enough j in
    (
      λ scanned. elim (Bool-cases (conforms schema j)) [
        | inl good ↦ good
        | inr bad ↦ ground (arith, ap is_ok scanned, rejects j schema _ [] enough bad)
      ],
      λ good. accepts j schema _ [] enough good,
    )
