-- ===== src/Encode/Tests.antt =====
-- The theorems at concrete inputs: a queue of three jobs whose contents wrap around.
use waydisplay.Prelude.{
  length, ℕ, ◌≤◌, ◌<◌, ◌≡◌, refl, ◌⊎◌, true, false, none, some, [], ◌∷◌, ◌++◌, arith,
}
use waydisplay.Encode.{queue_push, queue_pop, CompletionQueue}
use waydisplay.Encode.Fifo.{jobs, push_appends, IsValid}
use waydisplay.Encode.Pop.{pop_takes}

abbrev three : ℕ
three = 3

abbrev finished : CompletionQueue
finished = record {
  storage = 1 ∷ 0 ∷ 2 ∷ [];
  capacity = three;
  read_index = 2;
  write_index = 1;
  count = 2;
}

finished-IsValid : IsValid finished
finished-IsValid = record {
  stored = refl;
  capacity_pos = omega arith;
  capacity_word = omega arith;
  read_lt = omega arith;
  write_at = refl;
  fits = omega arith;
}

push_appends_example :
    IsValid (queue_push finished 0).0
    × (((length (jobs finished) < three)
          × (0 < three)
          × ((queue_push finished 0).1 ≡ true)
          × (jobs (queue_push finished 0).0 ≡ jobs finished ++ 0 ∷ []))
        ⊎ (((three ≤ length (jobs finished)) ⊎ (three ≤ 0))
            × ((queue_push finished 0).1 ≡ false)
            × ((queue_push finished 0).0 ≡ finished)))
push_appends_example = push_appends finished 0 finished-IsValid

pop_takes_example :
    IsValid (queue_pop finished).0
    × (((j : ℕ) × ((queue_pop finished).1 ≡ some j)
          × (jobs finished ≡ j ∷ jobs (queue_pop finished).0))
        ⊎ ((jobs finished ≡ [])
            × ((queue_pop finished).1 ≡ none)
            × ((queue_pop finished).0 ≡ finished)))
pop_takes_example = pop_takes finished finished-IsValid
