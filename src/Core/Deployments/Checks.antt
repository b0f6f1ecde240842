-- ===== src/Core/Deployments/Checks.antt =====
-- The checks of the arguments: src/hive/core/deployment_ledger.py. An argument has the type that the
-- source asks for; the patterns _KEY and _SHA are spelled out.
use Prim.Native.Char.{code}
use hive_os.Base.{
  ℕ, suc, String, Bool, true, false, Option, none, some, List, [], ◌∷◌, ◌&&◌, ◌||◌, leb, ltb, ◌==◌,
  if◌then◌else◌, str_eq, length,
}
use hive_os.Core.Deployments.{
  Signal, doctor, gateway_signal, smoke, revision, restart, verifier, timeout,
}

unfoldable pub between : ℕ → ℕ → ℕ → Bool
between lo hi c = leb lo c && leb c hi

unfoldable pub is_digit : ℕ → Bool
unfolding between
is_digit c = between 48 57 c

unfoldable pub is_letter : ℕ → Bool
unfolding between
is_letter c = between 65 90 c || between 97 122 c

-- [A-Za-z0-9._:-]
unfoldable pub is_key_char : ℕ → Bool
unfolding is_digit is_letter
is_key_char c = is_digit c || (is_letter c || (c == 46 || (c == 95 || (c == 58 || c == 45))))

unfoldable pub all_chars : (ℕ → Bool) → String → Bool
all_chars p String.[] = true
all_chars p (String.◌∷◌ c s) = p (code c) && all_chars p s

unfoldable pub size : String → ℕ
size String.[] = 0
size (String.◌∷◌ c s) = suc (size s)

-- [A-Za-z0-9][A-Za-z0-9._:-]{0,127}
unfoldable pub is_key : String → Bool
unfolding all_chars size is_key_char is_digit is_letter
is_key String.[] = false
is_key (String.◌∷◌ c s) =
    (is_digit (code c) || is_letter (code c)) && (all_chars is_key_char s && leb (size s) 127)

unfoldable pub is_hex : ℕ → Bool
unfolding is_digit between
is_hex c = is_digit c || (between 65 70 c || between 97 102 c)

unfoldable pub is_lower_hex : ℕ → Bool
unfolding is_digit between
is_lower_hex c = is_digit c || between 97 102 c

-- [0-9a-fA-F]{40} or {64}
unfoldable pub is_sha : String → Bool
unfolding all_chars size is_hex
is_sha s = all_chars is_hex s && (size s == 40 || size s == 64)

-- [0-9a-f]{32}
unfoldable pub is_process_id : String → Bool
unfolding all_chars size is_lower_hex
is_process_id s = all_chars is_lower_hex s && size s == 32

abbrev pub is_scope : String → Bool
is_scope s = str_eq s "system" || str_eq s "user"

unfoldable pub is_duration : ℕ → Bool → ℕ → Bool
is_duration maximum allow_zero duration = leb duration maximum && (allow_zero || ltb 0 duration)

unfoldable pub signal_eq : Signal → Signal → Bool
signal_eq doctor doctor = true
signal_eq gateway_signal gateway_signal = true
signal_eq smoke smoke = true
signal_eq revision revision = true
signal_eq restart restart = true
signal_eq verifier verifier = true
signal_eq timeout timeout = true
signal_eq _ _ = false

unfoldable pub without : Signal → List Signal → List Signal
unfolding signal_eq
without s [] = []
without s (t ∷ ts) = let rest = without s ts in if signal_eq s t then rest else t ∷ rest

-- tuple(dict.fromkeys(values))
unfoldable pub fromkeys : List Signal → List Signal
unfolding without
fromkeys [] = []
fromkeys (s ∷ ss) = s ∷ without s (fromkeys ss)

-- None where the call raises a ValueError.
unfoldable pub signals : List Signal → Option (List Signal)
unfolding fromkeys
signals values = if ltb 7 (length values) then none else some (fromkeys values)
