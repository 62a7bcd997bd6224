-- ===== src/Tests/Ring.antt =====
-- Runs of the ring of src/circular_buffer.h.
use camera_controller.Base.{ℕ, ◌≡◌, refl, List, [], ◌∷◌, arith, memcpy}
use camera_controller.CircularBuffer.{CircularBuffer, init, put, get, store, written, fetch}
use camera_controller.CircularBuffer.Contents.{IsValid, contents, init-IsValid}
use camera_controller.CircularBuffer.Put.{Put, put-Put}
use camera_controller.CircularBuffer.Get.{Get, get-Get}

-- Three bytes in a ring of four.
abbrev three : List ℕ
three = 1 ∷ 2 ∷ 3 ∷ []

abbrev held : CircularBuffer
held = put (init 4) three

four-IsValid : IsValid (init 4)
four-IsValid = (init-IsValid 4 (omega arith) (omega arith)).0

held-IsValid : IsValid held
held-IsValid = (put-Put three four-IsValid).valid

put-Put_example : Put held (4 ∷ 5 ∷ []) (put held (4 ∷ 5 ∷ []))
put-Put_example = put-Put (4 ∷ 5 ∷ []) held-IsValid

get-Get_example : Get held 2 (get held 2).0 (get held 2).1 (get held 2).2
get-Get_example = get-Get 2 held-IsValid

-- The oldest byte is dropped by a write that does not fit.
drops_oldest : contents (put held (4 ∷ 5 ∷ [])) ≡ 2 ∷ 3 ∷ 4 ∷ 5 ∷ []
unfolding put init store written memcpy
drops_oldest = refl

-- A read across the end of the array.
reads_across : (get (put (get held 2).0 (4 ∷ 5 ∷ 6 ∷ [])) 3).2 ≡ 3 ∷ 4 ∷ 5 ∷ []
unfolding put init store written get fetch memcpy
reads_across = refl
