-- ===== src/Message/Record/Free.antt =====
-- `free_heap_message` of src/storage/message.c on complete messages.
use mathlib.Core.List.{map}
use baka_dns.Base.{
  suc, ◌≡◌, refl, ap, ==_ne, arith, Option, none, some, List, [], ◌∷◌, ◌>>=◌, length,
}
use baka_dns.Message.Wire.{WireMessage, array_of, message_of}
use baka_dns.Message.Record.{free_elements, free_section, free_heap_message}

module _ {A : Type 0} where
  free_elements-map : (xs : List A) → free_elements (length xs) (map some xs) ≡ some tt
  unfolding free_elements
  free_elements-map [] = refl
  free_elements-map (x ∷ xs) = free_elements-map xs

  free_section-array_of : (xs : List A) → free_section (length xs) (array_of xs) ≡ some none
  unfolding free_section
  free_section-array_of [] = refl
  free_section-array_of (x ∷ xs) =
      rw (==_ne (suc (length xs)) 0 (λ e. omega arith))
        (ap (λ (m : Option (Unit {0})). m >>= λ _. some none) (free_elements-map (x ∷ xs)))

-- `free_heap_message` of a message whose arrays have as many elements as the header says stays within
-- the arrays, and leaves the header with four NULL arrays.
pub free_heap_message-message_of :
    (w : WireMessage)
    → free_heap_message (message_of w)
      ≡ some (record (message_of w) {
        question = none;
        answer = none;
        authority = none;
        addition = none;
      })
unfolding free_heap_message
free_heap_message-message_of w =
    rw (free_section-array_of w.questions, ◌>>=◌)
      (rw (free_section-array_of w.answers, ◌>>=◌)
        (rw (free_section-array_of w.authorities, ◌>>=◌)
          (rw (free_section-array_of w.additions, ◌>>=◌) refl)))
