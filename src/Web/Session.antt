-- ===== src/Web/Session.antt =====
-- internal/web/session.go: the tokens of the sessions. A token is its parts between the dots; times
-- are nanoseconds since 1970, and a timestamp is not negative. The encodings and the HMAC are the standard
-- library's and a parameter.
use wdbgp.Prelude.{
  Option, List, ℕ, some, if◌then◌else◌, ◌∷◌, ◌*◌, Bool, ◌≡◌, true, not, ltb, none, ◌==◌, false, [],
  ◌&&◌, ◌++◌, arith, ◌-◌,
}

-- Numbers and bytes in hexadecimal, and the HMAC of parts joined by dots.
pub record Codec (Text Bytes : Type 0) : Type 0 where
  pub format_int : ℕ → Text
  pub parse_int : Text → Option ℕ
  pub encode : Bytes → Text
  pub decode : Text → Option Bytes
  pub mac : Text → List Text → Bytes
  pub equal : Bytes → Bytes → Bool

-- What is read is what was written, and equal bytes compare as equal.
pub record IsCodec {Text Bytes : Type 0} (c : Codec Text Bytes) : Type 0 where
  pub ints : (n : ℕ) → c.parse_int (c.format_int n) ≡ some n
  pub bytes : (b : Bytes) → c.decode (c.encode b) ≡ some b
  pub same : (b : Bytes) → c.equal b b ≡ true

abbrev pub second : ℕ
second = 1000000000

-- The age of eight hours, which stands for none.
abbrev pub default_age : ℕ
default_age = 28800 * second

module _ {Text Bytes : Type 0} (c : Codec Text Bytes) (secret : Text) where
  -- `sessionToken` at a second, with the nonce in hexadecimal.
  unfoldable pub session_token : ℕ → Text → List Text
  session_token issued nonce =
      let text : List Text = c.format_int issued ∷ nonce ∷ [] in
      text ++ c.encode (c.mac secret text) ∷ []

  -- `userSessionToken`.
  unfoldable pub user_session_token : ℕ → Text → ℕ → List Text
  user_session_token issued nonce user =
      let text : List Text = c.format_int issued ∷ nonce ∷ c.format_int user ∷ [] in
      text ++ c.encode (c.mac secret text) ∷ []

  -- `time.Since(sessionTime) > maxAge`; a time to come is not expired.
  abbrev pub is_expired : ℕ → ℕ → ℕ → Bool
  is_expired issued max_age now = ltb max_age (now - issued * second)

  -- A timestamp that parses and is not expired.
  abbrev pub is_fresh : Option ℕ → ℕ → ℕ → Bool
  is_fresh none max_age now = false
  is_fresh (some issued) max_age now = not (is_expired issued max_age now)

  -- A signature that decodes to the one of the parts.
  abbrev pub is_signed : Option Bytes → List Text → Bool
  is_signed none text = false
  is_signed (some signature) text = c.equal signature (c.mac secret text)

  -- `validSession`. The last part of a longer token has a dot and does not decode.
  unfoldable pub valid_session : List Text → ℕ → ℕ → Bool
  valid_session (timestamp ∷ nonce ∷ signature ∷ []) max_age now =
      is_fresh (c.parse_int timestamp) max_age now
      && is_signed (c.decode signature) (timestamp ∷ nonce ∷ [])
  valid_session _ max_age now = false

  abbrev pub age_or_default : ℕ → ℕ
  age_or_default max_age = if max_age == 0 then default_age else max_age

  abbrev pub number_or_zero : Option ℕ → ℕ
  number_or_zero none = 0
  number_or_zero (some n) = n

  -- `parseUserSessionToken`, which gives 0 for a token that is not valid.
  unfoldable pub parse_user_session_token : List Text → ℕ → ℕ → ℕ
  parse_user_session_token (timestamp ∷ nonce ∷ user ∷ signature ∷ []) max_age now =
      if is_fresh (c.parse_int timestamp) (age_or_default max_age) now
        && is_signed (c.decode signature) (timestamp ∷ nonce ∷ user ∷ [])
      then number_or_zero (c.parse_int user)
      else 0
  parse_user_session_token _ max_age now = 0

  -- A token of an administrator's session is valid for the age and no longer, if what is written in
  -- hexadecimal is read back and equal signatures compare as equal.
  pub valid_session-session_token :
      (issued max_age now : ℕ) (nonce : Text)
      → IsCodec c
      → valid_session (session_token issued nonce) max_age now ≡ not (is_expired issued max_age now)
  unfolding session_token valid_session
  valid_session-session_token issued max_age now nonce h =
      let text : List Text = c.format_int issued ∷ nonce ∷ [] in
      rw (h.ints issued, h.bytes (c.mac secret text), h.same (c.mac secret text)) (ground arith)

  -- A token of a user's session gives the user for the age, eight hours if there is none, and 0
  -- afterwards, if what is written in hexadecimal is read back and equal signatures compare as equal.
  pub parse_user_session_token-user_session_token :
      (issued max_age now user : ℕ) (nonce : Text)
      → IsCodec c
      → parse_user_session_token (user_session_token issued nonce user) max_age now
        ≡ (if is_expired issued (age_or_default max_age) now then 0 else user)
  unfolding user_session_token parse_user_session_token
  parse_user_session_token-user_session_token issued max_age now user nonce h =
      let text : List Text = c.format_int issued ∷ nonce ∷ c.format_int user ∷ [] in
      rw (h.ints issued, h.ints user, h.bytes (c.mac secret text), h.same (c.mac secret text))
        (ground arith)
