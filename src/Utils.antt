-- ===== src/Utils.antt =====
-- internal/utils: password hashing over bcrypt, and opaque random tokens.
use Prim.Native.String.{len}
use chatter_stack.Base.{
  ℕ, zero, suc, ◌+◌, ◌*◌, ◌/◌, ◌%◌, String, cat, List, [], ◌∷◌, ltb, eqb, if◌then◌else◌,
}
use chatter_stack.Errors.{Error, other}
use chatter_stack.Exec.{Result, err, Exec, pure, refuse, ◌>>=◌, ◌>>◌}

-- golang.org/x/crypto/bcrypt and crypto/rand: `generate` makes a salted hash, `compare` checks a
-- hash against a password, `random` fills a buffer of 32 bytes.
pub record Crypto (W : Type 0) : Type 0 where
  pub generate : String → Exec W String
  pub compare : String → String → Result (Unit {0})
  pub random : Exec W (List ℕ)

abbrev pub password_min_length : ℕ
password_min_length = 8

abbrev pub too_short : Error
too_short = other "password must be at least 8 characters long"

-- `alphabet[i]`
nth : ℕ → String → String
nth i String.[] = ""
nth zero (String.◌∷◌ c s) = String.◌∷◌ c ""
nth (suc i) (String.◌∷◌ c s) = nth i s

digit : ℕ → String
unfolding nth
digit i = nth i "ABCDEFGHIJKLMNOPQRSTUVWXYZabcdefghijklmnopqrstuvwxyz0123456789-_"

-- base64.RawURLEncoding.EncodeToString
unfoldable pub encode_base64 : List ℕ → String
unfolding digit
encode_base64 [] = ""
encode_base64 (a ∷ []) = cat (digit (a / 4)) (digit (a % 4 * 16))
encode_base64 (a ∷ b ∷ []) =
    cat (digit (a / 4)) (cat (digit (a % 4 * 16 + b / 16)) (digit (b % 16 * 4)))
encode_base64 (a ∷ b ∷ c ∷ rest) = cat (digit (a / 4)) (
    cat (digit (a % 4 * 16 + b / 16))
      (cat (digit (b % 16 * 4 + c / 64)) (cat (digit (c % 64)) (encode_base64 rest))))

module _ {W : Type 0} (crypto : Crypto W) where
  unfoldable pub hash_password : String → Exec W String
  hash_password plain = do
    refuse (ltb (len plain) password_min_length) too_short
    crypto.generate plain

  unfoldable pub compare_hash_and_password : String → String → Result (Unit {0})
  compare_hash_and_password hash plain =
      if eqb hash ""
      then err (other "stored password hash cannot be empty")
      else if ltb (len plain) password_min_length
      then err too_short
      else crypto.compare hash plain

  -- The claims are not used by the source.
  unfoldable pub generate_opaque_token : String → Exec W String
  generate_opaque_token kind = do
    buffer ← crypto.random
    pure (cat kind (cat "_" (encode_base64 buffer)))
