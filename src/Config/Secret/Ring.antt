-- ===== src/Config/Secret/Ring.antt =====
-- What a key ring of internal/config/secret.go is that was accepted.
use mathlib.Core.Path.{subst}
use nexus_relay.Common.{
  ◌≡◌, refl, sym, ◌∙◌, ◌++◌, insert, insert-append, append-nil, absent, String, true, false, not,
  ◌||◌, some, List, [], ◌∷◌, ◌==◌, nat_eq, arith, length, Map, lookup, is_some, All,
  HasDistinctKeys, insert-All, insert-distinct, ok, eq_iff,
}
use nexus_relay.Common.Ensures.{
  Ensures, holds, Ensures-ok, Ensures-map, ◌≫◌, fail_if-Ensures, or_fail-Ensures,
}
use nexus_relay.Config.Library.{Library, Bytes, ℤ}
use nexus_relay.Config.Secret.{KeyRing, is_key_id, decode_key, add_keys, validate_ring}

-- An id in its syntax, and the 32 bytes that a canonical text stands for.
pub record IsKey (go : Library) (entry : String × Bytes) : Type 0 where
  pub named : is_key_id entry.0 ≡ true
  pub sized : length entry.1 ≡ 32
  pub canonical : go.decode_base64 (go.encode_base64 entry.1) ≡ some entry.1

pub record IsKeyRing (go : Library) (ring : KeyRing) : Type 0 where
  pub keys : All (IsKey go) ring.keys
  pub distinct : HasDistinctKeys ring.keys
  pub active : is_some (lookup ring.active_key_id ring.keys) ≡ true

pub record IsDecoded (go : Library) (text : String) (key : Bytes) : Type 0 where
  pub decoded : go.decode_base64 text ≡ some key
  pub sized : length key ≡ 32
  pub encoded : go.encode_base64 key ≡ text

key_checks :
    (go : Library) (key : Bytes) (text : String)
    → (not (nat_eq (length key) 32) || not (go.encode_base64 key == text)) ≡ false
    → (length key ≡ 32) × (go.encode_base64 key ≡ text)
key_checks go key text h = ground (arith, eq_iff (go.encode_base64 key) text)

pub decode_key-Ensures :
    (go : Library) (name text : String) → Ensures (IsDecoded go text) (decode_key go name text)
unfolding decode_key
decode_key-Ensures go name text = or_fail-Ensures _ _ ≫ λ key decoded. fail_if-Ensures _ _ ≫ λ _ h.
    holds (record {
      decoded = decoded;
      sized = (key_checks go key text h).0;
      encoded = (key_checks go key text h).1;
    })

-- The keys are those of the entries, one for one and in their order.
abbrev pub AreDecoded : Library → List (String × String) → Map Bytes → Type 0
AreDecoded go [] [] = Unit
AreDecoded go ((key_id, text) ∷ entries) ((name, key) ∷ keys) =
    (name ≡ key_id) × IsDecoded go text key × AreDecoded go entries keys
AreDecoded go _ _ = ⊥

-- what a run of the loop adds to the keys
record IsGrown (go : Library) (entries : List (String × String)) (keys grown : Map Bytes)
    : Type 0 where
  sound : All (IsKey go) grown
  distinct : HasDistinctKeys grown
  new : Map Bytes
  added : grown ≡ keys ++ new
  decoded : AreDecoded go entries new

add_keys-Ensures :
    (go : Library) (name : String) (entries : List (String × String)) (keys : Map Bytes)
    → All (IsKey go) keys
    → HasDistinctKeys keys
    → Ensures (IsGrown go entries keys) (add_keys go name entries keys)
unfolding add_keys
add_keys-Ensures go name [] keys h d =
    holds
      (record { sound = h; distinct = d; new = []; added = sym (append-nil keys); decoded = tt })
add_keys-Ensures go name ((key_id, text) ∷ entries) keys h d = fail_if-Ensures _ _ ≫ λ _ named.
    fail_if-Ensures _ _ ≫ λ _ fresh. decode_key-Ensures go name text ≫ λ key k.
    let missing = absent (lookup key_id keys) fresh in
    Ensures-map
      (λ grown (g : IsGrown go entries (insert key_id key keys) grown). record {
        sound = g.sound;
        distinct = g.distinct;
        new = (key_id, key) ∷ g.new;
        added = g.added ∙ insert-append key_id key keys g.new missing;
        decoded = (refl, k, g.decoded);
      })
      (add_keys-Ensures go name entries (insert key_id key keys)
        (insert-All (IsKey go) key_id key keys
          (record { named = ground arith; sized = k.sized; canonical = rw k.encoded k.decoded }) h)
        (insert-distinct key_id key keys missing d))

ring-Ensures :
    (go : Library) (name : String) (version : ℤ) (active : String)
    (entries : List (String × String))
    → Ensures
        (λ ring. IsKeyRing go ring × AreDecoded go entries ring.keys)
        (validate_ring go name version active entries)
unfolding validate_ring
ring-Ensures go name version active entries = fail_if-Ensures _ _ ≫ λ _ _.
    fail_if-Ensures _ _ ≫ λ _ _. fail_if-Ensures _ _ ≫ λ _ _.
    add_keys-Ensures go name entries [] tt tt ≫ λ keys g. fail_if-Ensures _ _ ≫ λ _ active_found.
    holds (
      record { keys = g.sound; distinct = g.distinct; active = ground arith },
      subst (λ m. AreDecoded go entries m) (sym g.added) g.decoded,
    )

pub validate_ring-Ensures :
    (go : Library) (name : String) (version : ℤ) (active : String)
    (entries : List (String × String))
    → Ensures (IsKeyRing go) (validate_ring go name version active entries)
validate_ring-Ensures go name version active entries =
    Ensures-map (λ ring (h, _). h) (ring-Ensures go name version active entries)

-- A key ring that is accepted has a key for each of the given entries and no other, one for one and in
-- their order: an id is valid and stands in one entry only, a key has the 32 bytes for which the
-- entry's text is the canonical base64, and the active id is the id of one of the keys.
pub validate_ring-IsKeyRing :
    (go : Library) (name : String) (version : ℤ) (active : String)
    (entries : List (String × String)) {ring : KeyRing}
    → validate_ring go name version active entries ≡ ok ring
    → IsKeyRing go ring × AreDecoded go entries ring.keys
validate_ring-IsKeyRing go name version active entries h =
    Ensures-ok (rw h at (ring-Ensures go name version active entries))
