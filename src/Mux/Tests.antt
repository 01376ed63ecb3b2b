-- ===== src/Mux/Tests.antt =====
-- A multiplexer with the patterns "a" and "ab", and the theorems at it.
use asynq.Common.{ℕ, ◌+◌, ◌*◌, ◌≡◌, refl, Bool, false, [], ◌∷◌, Option, some}
use asynq.Mux.{
  Text, ServeMux, new_serve_mux, lookup, first_prefix, match_, append_sorted, has_prefix, eq_text,
  register, handle, handler, wrapped, ok,
}
use asynq.Mux.Match.{Best, IsSound, new-IsSound, handle-IsSound, match-Best}

abbrev a_only : ServeMux ℕ
a_only = register new_serve_mux (b'a' ∷ []) 1

abbrev two_patterns : ServeMux ℕ
two_patterns = register a_only (b'a' ∷ b'b' ∷ []) 2

-- No pattern of the examples is blank.
abbrev never_blank : Text → Bool
never_blank t = false

registered_a : handle never_blank new_serve_mux (b'a' ∷ []) (some 1) ≡ ok a_only
unfolding handle lookup register
registered_a = refl

registered_ab : handle never_blank a_only (b'a' ∷ b'b' ∷ []) (some 2) ≡ ok two_patterns
unfolding handle lookup register append_sorted eq_text
registered_ab = refl

a_only-IsSound : IsSound a_only
a_only-IsSound =
    handle-IsSound never_blank new_serve_mux a_only (b'a' ∷ []) (some 1) new-IsSound registered_a

two_patterns-IsSound : IsSound two_patterns
two_patterns-IsSound =
    handle-IsSound never_blank a_only two_patterns (b'a' ∷ b'b' ∷ []) (some 2) a_only-IsSound
      registered_ab

longest_wins : match_ two_patterns (b'a' ∷ b'b' ∷ b'c' ∷ []) ≡ some (b'a' ∷ b'b' ∷ [], 2)
unfolding match_ lookup first_prefix register append_sorted has_prefix eq_text
longest_wins = refl

match-Best_example :
    Best (b'a' ∷ b'b' ∷ b'c' ∷ []) two_patterns.m (match_ two_patterns (b'a' ∷ b'b' ∷ b'c' ∷ []))
match-Best_example = match-Best two_patterns (b'a' ∷ b'b' ∷ b'c' ∷ []) two_patterns-IsSound

abbrev three : Option ℕ
three = some 3

handler_wraps :
    handler 9 (record two_patterns { mws = (λ h. h + 10) ∷ (λ h. h * 2) ∷ [] }) (b'a' ∷ [])
    ≡ (12, b'a' ∷ [])
unfolding handler wrapped match_ lookup first_prefix register append_sorted has_prefix eq_text
handler_wraps = refl
