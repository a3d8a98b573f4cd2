-- ===== src/Mount/Slashes.antt =====
-- The slashes in the key of a mount.
use Prim.Native.Char.{Char}
use containerdosstore.Prelude.{
  ℕ, String, ◌<>◌, Bool, true, not, ◌≡◌, refl, arith, all_chars, all_chars-append,
  all_chars-decimal, decimal, subst,
}
use containerdosstore.FilePath.{is_slash, dashed, trim}
use containerdosstore.Exec.{ok}
use containerdosstore.Exec.Inversion.{bind-ok, ok_injective}
use containerdosstore.Services.{Services}
use containerdosstore.World.{World, call}
use containerdosstore.Mount.{mount_key}
use containerdosstore.Mount.Key.{
  encode_to_string, unique_part, target_part, all_chars-encode_to_string,
}

abbrev pub is_no_slash : Char → Bool
is_no_slash c = not (is_slash c)

-- A text without a slash.
abbrev pub NoSlash : String → Type 0
NoSlash s = all_chars is_no_slash s ≡ true

append-NoSlash : (s t : String) → NoSlash s → NoSlash t → NoSlash (s <> t)
append-NoSlash s t h k = ground (arith, all_chars-append is_no_slash s t)

dashed-NoSlash : (s : String) → NoSlash (dashed s)
unfolding dashed all_chars
dashed-NoSlash String.[] = refl
dashed-NoSlash (String.◌∷◌ c s) =
    ground (arith, dashed-NoSlash s, append-NoSlash "-" (dashed s) refl (dashed-NoSlash s))

decimal-NoSlash : (n : ℕ) → NoSlash (decimal n)
unfolding all_chars
decimal-NoSlash n =
    all_chars-decimal is_no_slash n
      (refl, (refl, (refl, (refl, (refl, (refl, (refl, (refl, (refl, (refl, tt))))))))))

unique_part-NoSlash : (n : ℕ) (bytes : ℕ × ℕ × ℕ) → NoSlash (unique_part n bytes)
unfolding unique_part all_chars
unique_part-NoSlash n bytes =
    append-NoSlash (decimal n) ("-" <> encode_to_string bytes) (decimal-NoSlash n) (
      append-NoSlash "-" (encode_to_string bytes) refl
        (all_chars-encode_to_string is_no_slash bytes refl))

made_up-NoSlash :
    (n : ℕ) (bytes : ℕ × ℕ × ℕ) (target : String)
    → NoSlash (unique_part n bytes <> ("-" <> target_part target))
unfolding target_part all_chars
made_up-NoSlash n bytes target =
    append-NoSlash (unique_part n bytes) ("-" <> target_part target) (unique_part-NoSlash n bytes)
      (append-NoSlash "-" (dashed (trim target)) refl (dashed-NoSlash (trim target)))

-- The key that Mount makes up, for a mount that is given the empty one, has no slash, whatever the
-- target is.
pub mount_key-NoSlash :
    {S : Services} (target : String) (w : World S) (k : String)
    → (mount_key {S = S} "" target w).0 ≡ ok k
    → NoSlash k
unfolding mount_key
mount_key-NoSlash {S} target w k e =
    let (nanos, e1, left1) = bind-ok (call S.nanosecond) _ w e in
    let (bytes, e2, left2) = bind-ok (call S.random_bytes) _ _ left1 in
    subst NoSlash (ok_injective _ k left2) (made_up-NoSlash nanos bytes target)
