-- ===== src/Config/Keys.antt =====
-- The license keys of config.go: how a comma-separated list is read, and which instance gets which.
use go_multi_warp.Prelude.{
  ℕ, suc, ◌%◌, pos, rem, ◌≡◌, false, List, [], ◌∷◌, some, Bytes, arith, All, is_empty, Bool-cases,
  inl, inr, if◌then◌else◌, length, get_elem?, get_elem?-some,
}
use native.Mathlib.Nat.{mod-lt}
use go_multi_warp.Std.{trim_space, split}
use go_multi_warp.Std.Split.{has_byte, split-All, trim_space-has_byte, trim_space_idem}
use go_multi_warp.Config.{Config, keep_nonempty, split_csv, license_key_for}

-- What is a key: not empty, with no white space around it and no comma in it.
pub record IsKey (k : Bytes) : Type 0 where
  pub filled : is_empty k ≡ false
  pub trimmed : trim_space k ≡ k
  pub whole : has_byte b',' k ≡ false

keep_nonempty-IsKey :
    (ps : List Bytes) → All (λ p. has_byte b',' p ≡ false) ps → All IsKey (keep_nonempty ps)
keep_nonempty-IsKey [] a = tt
keep_nonempty-IsKey (p ∷ ps) a = elim (Bool-cases (is_empty (trim_space p))) [
  | inl e ↦ rw (e, if◌then◌else◌) (keep_nonempty-IsKey ps a.1)
  | inr e ↦
      rw (e, if◌then◌else◌)
        (
          record {
            filled = e;
            trimmed = trim_space_idem p;
            whole = trim_space-has_byte b',' p a.0;
          },
          keep_nonempty-IsKey ps a.1,
        )
]

-- Whatever the text, splitCSV yields keys only: none empty, each trimmed, none with a comma.
split_csv-IsKey : (s : Bytes) → All IsKey (split_csv s)
unfolding split_csv
split_csv-IsKey s = keep_nonempty-IsKey (split b',' s) (split-All b',' s)

key_at :
    (ks : List Bytes) (id : ℕ)
    → is_empty ks ≡ false
    → (k : Bytes) × (get_elem? ks (id % length ks) ≡ some k)
key_at [] id h = cc
key_at (k ∷ ks) id h =
    get_elem?-some (k ∷ ks) (id % suc (length ks)) (mod-lt id {m = suc (length ks)} (omega arith))

-- With keys configured, an instance gets the key whose place is its id modulo their number, a key
-- that exists: ids below that number have a key each, and ids that differ by it share one.
license_key_for_lem :
    (id : ℕ) (c : Config)
    → is_empty c.control.license_keys ≡ false
    → get_elem? c.control.license_keys (id % length c.control.license_keys)
      ≡ some (license_key_for (pos id) c)
unfolding license_key_for rem
license_key_for_lem id c h = ground (arith, key_at c.control.license_keys id h)
