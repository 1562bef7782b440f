-- ===== src/Strlib/Strencode.antt =====
-- src/ewa_base/util/strlib.cpp: `string_strencode`.
use ew_base.Prelude.{ℕ, ◌||◌, [], ◌∷◌, ◌++◌, ◌==◌, if◌then◌else◌}
use ew_base.Prelude.Run.{Run, ok, fault, ◌>>=◌}
use ew_base.Codecvt.{Bytes}

-- What a byte becomes: a control character stays behind the backslash as it is.
unfoldable pub strencode_byte : ℕ → Bytes
strencode_byte c =
    if c == b'"' || c == b'\\'
    then b'\\' ∷ c ∷ []
    else if c == b'\t' || c == b'\r' || c == b'\n'
    then b'\\' ∷ c ∷ []
    else c ∷ []

unfoldable pub string_strencode : Bytes → Run Bytes
unfolding strencode_byte
string_strencode [] = fault
string_strencode (c ∷ p) =
    let rest = string_strencode p in
    if c == 0 then ok [] else (rest >>= λ out. ok (strencode_byte c ++ out))
