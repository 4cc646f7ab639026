-- ===== src/Control/Uniqueness/Probe.antt =====
-- internal/control/uniqueness.go: probeEgressIPv4, from the answer to its request on. net.ParseIP with To4
-- and String is the parameter `parse`.
use go_multi_warp.Prelude.{
  ℕ, ◌≤◌, ◌≡◌, refl, sym, ap, ◌∙◌, false, [], ◌∷◌, ◌++◌, Option, none, some, Bytes, codes, length,
  take, take-length, is_empty, arith, if◌then◌else◌, length-append, append_assoc,
}
use go_multi_warp.Std.{is_space, trim_left, trim_right, trim_space, cut_prefix, has_prefix, cut}
use go_multi_warp.Std.Split.{has_byte, cut-append}

-- How the request ends: without an answer, with a status, with a body that cannot be read, or with one.
pub data Fetched : Type 0 where
  not_fetched not_read : Fetched
  bad_status : ℕ → Fetched
  page : Bytes → Fetched

-- What follows the first place of a text, by strings.Index.
unfoldable pub after_first : Bytes → Bytes → Option Bytes
after_first text [] = cut_prefix [] text
after_first text (c ∷ cs) =
    let rest = after_first text cs in
    elim (cut_prefix (c ∷ cs) text) [ none ↦ rest | some s ↦ some s ]

abbrev pub up_to_quote : Bytes → Option (Bytes × Bytes) → Bytes
up_to_quote ip none = ip
up_to_quote ip (some (value, more)) = value

abbrev pub quoted : Bytes → Option (Bytes × Bytes) → Bytes
quoted ip none = ip
quoted ip (some (before, rest)) = up_to_quote ip (cut b'"' rest)

-- The value behind the name ip, or the text as it is.
abbrev pub json_ip : Bytes → Option Bytes → Bytes
json_ip ip none = ip
json_ip ip (some rest) = quoted ip (cut b'"' rest)

unfoldable pub read_ip : Bytes → Bytes
unfolding after_first
read_ip body =
    let ip = trim_space (take 128 body) in
    if has_prefix (codes "{") ip then json_ip ip (after_first (codes "\"ip\"") ip) else ip

unfoldable pub probe_egress : (Bytes → Option Bytes) → Fetched → Option Bytes
unfolding read_ip
probe_egress parse not_fetched = none
probe_egress parse (bad_status code) = none
probe_egress parse not_read = none
probe_egress parse (page body) = parse (read_ip body)

-- The forms of an answer.
abbrev pub json : Bytes → Bytes
json a = codes "{\"ip\":\"" ++ (a ++ codes "\"}")

is_empty-append : (s : Bytes) (c : ℕ) → is_empty (s ++ c ∷ []) ≡ false
is_empty-append [] c = refl
is_empty-append (d ∷ s) c = refl

trim_right-append :
    (s : Bytes) (c : ℕ) → is_space c ≡ false → trim_right (s ++ c ∷ []) ≡ s ++ c ∷ []
unfolding trim_right
trim_right-append [] c h = ground arith
trim_right-append (d ∷ s) c h =
    let last = is_empty-append s c in rw (trim_right-append s c h) (ground arith)

trim_space-json : (a : Bytes) → trim_space (json a) ≡ json a
unfolding trim_space trim_left
trim_space-json a =
    let same : (codes "{\"ip\":\"" ++ (a ++ b'"' ∷ [])) ++ b'}' ∷ [] ≡ json a =
      append_assoc (codes "{\"ip\":\"") (a ++ b'"' ∷ []) (b'}' ∷ [])
      ∙ ap (λ s. codes "{\"ip\":\"" ++ s) (append_assoc a (b'"' ∷ []) (b'}' ∷ [])) in
    sym (ap trim_right same)
    ∙ (trim_right-append (codes "{\"ip\":\"" ++ (a ++ b'"' ∷ [])) b'}' refl ∙ same)

read_ip-json : (a : Bytes) → has_byte b'"' a ≡ false → length a ≤ 100 → read_ip (json a) ≡ a
unfolding read_ip after_first cut cut_prefix
read_ip-json a q n =
    let short : length (json a) ≤ 128 = omega (arith, length-append a (b'"' ∷ b'}' ∷ [])) in
    rw (take-length 128 (json a) short, trim_space-json a)
      (rw (cut-append b'"' a (b'}' ∷ []) q) refl)

-- An address in the text of an answer is read alike from {"ip":"..."} and from plain text.
pub probe_egress-json :
    (parse : Bytes → Option Bytes) (a : Bytes)
    → has_byte b'"' a ≡ false
    → has_prefix (codes "{") a ≡ false
    → trim_space a ≡ a
    → length a ≤ 100
    → (probe_egress parse (page (json a)) ≡ parse a) × (probe_egress parse (page a) ≡ parse a)
unfolding probe_egress read_ip
probe_egress-json parse a q j t n = (
  ap parse (read_ip-json a q n),
  ap parse (rw (take-length 128 a (omega arith), t, j, if◌then◌else◌) refl),
)
