-- ===== src/Base/Base64.antt =====
-- base64.StdEncoding.EncodeToString (encoding/base64): three bytes become four characters, and the
-- last group is padded with `=`.
use Prim.Native.Nat.{ℕ, ◌+◌, ◌*◌, ◌/◌, ◌%◌}
use Prim.Native.String.{String, slice}
use mathlib.Core.Path.{◌≡◌, refl}
use mathlib.Core.List.{[], ◌∷◌}
use go_grpc_http.Base.Action.{Bytes}
use go_grpc_http.Base.Text.{◌⧺◌}

abbrev alphabet : String
alphabet = "ABCDEFGHIJKLMNOPQRSTUVWXYZabcdefghijklmnopqrstuvwxyz0123456789+/"

sextet : ℕ → String
sextet n = slice alphabet (n % 64) (n % 64 + 1)

unfoldable pub encode_base64 : Bytes → String
unfolding sextet
encode_base64 [] = ""
encode_base64 (a ∷ []) = sextet (a / 4) ⧺ sextet (a * 16) ⧺ "=="
encode_base64 (a ∷ b ∷ []) = sextet (a / 4) ⧺ sextet (a * 16 + b / 16) ⧺ sextet (b * 4) ⧺ "="
encode_base64 (a ∷ b ∷ c ∷ rest) =
    sextet (a / 4)
    ⧺ sextet (a * 16 + b / 16)
    ⧺ sextet (b * 4 + c / 64)
    ⧺ sextet c
    ⧺ encode_base64 rest

-- RFC 4648, section 10.
rfc_vectors :
    (encode_base64 (0x66 ∷ []) ≡ "Zg==")
    × (encode_base64 (0x66 ∷ 0x6f ∷ []) ≡ "Zm8=")
    × (encode_base64 (0x66 ∷ 0x6f ∷ 0x6f ∷ 0x62 ∷ 0x61 ∷ 0x72 ∷ []) ≡ "Zm9vYmFy")
unfolding encode_base64
rfc_vectors = (refl, refl, refl)
