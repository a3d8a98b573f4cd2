-- ===== src/Mount/Key.antt =====
-- The key that Mount makes up: uniquePart of pkg/ocistore/ociStore.go, and the target with its
-- slashes as dashes.
use containerdosstore.Prelude.{
  ℕ, zero, suc, ◌+◌, ◌*◌, ◌/◌, ◌%◌, String, ◌<>◌, decimal, Bool, true, ◌≡◌, refl, arith, all_chars,
  all_chars-append,
}
use Prim.Native.Char.{Char}
use containerdosstore.FilePath.{trim, dashed}

char_of : String → ℕ → String
char_of String.[] n = ""
char_of (String.◌∷◌ c s) zero = String.◌∷◌ c ""
char_of (String.◌∷◌ c s) (suc n) = char_of s n

-- The characters of base64.URLEncoding
abbrev pub alphabet : String
alphabet = "ABCDEFGHIJKLMNOPQRSTUVWXYZabcdefghijklmnopqrstuvwxyz0123456789-_"

-- One character of base64.URLEncoding
sextet : ℕ → String
unfolding char_of
sextet n = char_of alphabet (n % 64)

-- base64.URLEncoding.EncodeToString of three bytes
unfoldable pub encode_to_string : ℕ × ℕ × ℕ → String
unfolding sextet
encode_to_string (a, b, c) =
    let n = a * 65536 + b * 256 + c in
    sextet (n / 262144) <> (sextet (n / 4096) <> (sextet (n / 64) <> sextet n))

-- `fmt.Sprintf("%d-%s", ...)` of the nanosecond and the random bytes
unfoldable pub unique_part : ℕ → ℕ × ℕ × ℕ → String
unfolding encode_to_string
unique_part nanosecond bytes = decimal nanosecond <> ("-" <> encode_to_string bytes)

-- `strings.ReplaceAll(strings.Trim(target, "/"), "/", "-")`
unfoldable pub target_part : String → String
target_part target = dashed (trim target)

-- The characters of the key

all_chars-char_of :
    (p : Char → Bool) (s : String) (n : ℕ) → all_chars p s ≡ true → all_chars p (char_of s n) ≡ true
unfolding char_of all_chars
all_chars-char_of p String.[] n h = refl
all_chars-char_of p (String.◌∷◌ c s) zero h = ground (arith, h)
all_chars-char_of p (String.◌∷◌ c s) (suc n) h = ground (arith, h, all_chars-char_of p s n)

all_chars-sextet :
    (p : Char → Bool) (n : ℕ) → all_chars p alphabet ≡ true → all_chars p (sextet n) ≡ true
unfolding sextet
all_chars-sextet p n h = all_chars-char_of p alphabet (n % 64) h

-- What holds of the alphabet holds of the encoded bytes.
pub all_chars-encode_to_string :
    (p : Char → Bool) (bytes : ℕ × ℕ × ℕ)
    → all_chars p alphabet ≡ true
    → all_chars p (encode_to_string bytes) ≡ true
unfolding encode_to_string
all_chars-encode_to_string p (a, b, c) h =
    let n = a * 65536 + b * 256 + c in
    let one = all_chars-sextet p (n / 262144) h in
    let two = all_chars-sextet p (n / 4096) h in
    let three = all_chars-sextet p (n / 64) h in
    let four = all_chars-sextet p n h in
    ground (
      arith,
      all_chars-append p (sextet (n / 262144)) (sextet (n / 4096) <> (sextet (n / 64) <> sextet n)),
      all_chars-append p (sextet (n / 4096)) (sextet (n / 64) <> sextet n),
      all_chars-append p (sextet (n / 64)) (sextet n),
      one,
      two,
      three,
      four,
    )
