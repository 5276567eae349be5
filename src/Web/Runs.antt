-- ===== src/Web/Runs.antt =====
-- Tests: the tokens over numbers for texts, with a sum for the HMAC.
use wdbgp.Prelude.{true, List, arith, ◌*◌, ℕ, ◌∷◌, some, ◌≡◌, refl, false, ◌+◌, [], ◌==◌}
use wdbgp.Web.Session.{
  Codec, IsCodec, second, session_token, user_session_token, valid_session,
  parse_user_session_token, valid_session-session_token,
  parse_user_session_token-user_session_token,
}

abbrev sum : List ℕ → ℕ
sum [] = 0
sum (n ∷ ns) = n + 3 * sum ns

abbrev numbers : Codec ℕ ℕ
numbers = record {
  format_int = λ n. n;
  parse_int = λ t. some t;
  encode = λ b. b;
  decode = λ t. some t;
  mac = λ secret text. secret + sum text;
  equal = λ a b. a == b;
}

numbers-IsCodec : IsCodec numbers
numbers-IsCodec = record { ints = λ n. refl; bytes = λ b. refl; same = λ b. ground arith }

-- A token whose user was changed.
forged : parse_user_session_token numbers 99 (10 ∷ 5 ∷ 8 ∷ 144 ∷ []) (60 * second) (20 * second) ≡ 0
unfolding parse_user_session_token
forged = refl

-- A timestamp in the future is not expired.
early : valid_session numbers 99 (session_token numbers 99 10 5) 0 (9 * second) ≡ true
unfolding valid_session session_token
early = refl

valid_session-session_token_example :
    valid_session numbers 99 (session_token numbers 99 10 5) (60 * second) (71 * second) ≡ false
valid_session-session_token_example =
    valid_session-session_token numbers 99 10 (60 * second) (71 * second) 5 numbers-IsCodec

parse_user_session_token-user_session_token_example :
    parse_user_session_token numbers 99 (user_session_token numbers 99 10 5 7) 0 (70 * second) ≡ 7
parse_user_session_token-user_session_token_example =
    parse_user_session_token-user_session_token numbers 99 10 0 (70 * second) 7 5 numbers-IsCodec
