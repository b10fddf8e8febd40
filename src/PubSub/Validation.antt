-- ===== src/PubSub/Validation.antt =====
-- pubsub.go: the checks of names, messages and headers.
use go_patternx.PubSub.{Dict}
use go_patternx.Base.{
  Option, ℕ, Bool, List, true, ◌||◌, ◌==◌, some, ◌∷◌, ◌&&◌, ltb, [], length, ◌*◌, none, not,
}
use Prim.Native.String.{String, len}
use go_patternx.Errors.{Result, fail_if, ok, text, ◌>>◌}

-- What the checks use of Go's `range` over a string and of its package unicode.
pub record Unicode : Type 0 where
  pub runes : String → List ℕ
  pub is_letter : ℕ → Bool
  pub is_digit : ℕ → Bool

module _ (u : Unicode) where
  -- A header key has no full stop.
  key_char : ℕ → Bool
  key_char c = u.is_letter c || u.is_digit c || c == 45 || c == 95

  name_char : ℕ → Bool
  unfolding key_char
  name_char c = key_char c || c == 46

  all_chars : (ℕ → Bool) → List ℕ → Bool
  all_chars f [] = true
  all_chars f (c ∷ cs) = f c && all_chars f cs

  unfoldable pub validate_topic_name : String → Result (Unit {0})
  unfolding name_char all_chars
  validate_topic_name name =
      fail_if (len name == 0) (text "topic name cannot be empty")
      >> fail_if (ltb 255 (len name)) (text "topic name is too long")
      >> fail_if (not (all_chars name_char (u.runes name)))
          (text "topic name contains invalid character")

  unfoldable pub validate_subscription_id : String → Result (Unit {0})
  unfolding name_char all_chars
  validate_subscription_id id =
      fail_if (len id == 0) (text "subscription ID cannot be empty")
      >> fail_if (ltb 255 (len id)) (text "subscription ID is too long")
      >> fail_if (not (all_chars name_char (u.runes id)))
          (text "subscription ID contains invalid character")

  -- The loop of `validateHeaders`.
  valid_headers : Dict String → Result (Unit {0})
  unfolding key_char all_chars
  valid_headers [] = ok tt
  valid_headers ((key, value) ∷ rest) =
      fail_if (ltb 100 (len key)) (text "header key is too long")
      >> fail_if (ltb 1000 (len value)) (text "header value is too long")
      >> fail_if (not (all_chars key_char (u.runes key)))
          (text "header key contains invalid character")
      >> valid_headers rest

  unfoldable pub validate_headers : Option (Dict String) → Result (Unit {0})
  unfolding valid_headers
  validate_headers none = ok tt
  validate_headers (some headers) =
      fail_if (ltb 50 (length headers)) (text "too many headers") >> valid_headers headers

unfoldable pub validate_message : String → Result (Unit {0})
validate_message body =
    fail_if (len body == 0) (text "message data cannot be empty")
    >> fail_if (ltb (10 * 1024 * 1024) (len body)) (text "message is too large")
