-- ===== src/Buffer/Tests.antt =====
-- The theorems at concrete inputs.
use waydisplay.Prelude.{
  if◌then◌else◌, ℕ, zero, suc, ◌+◌, ◌-◌, ◌*◌, ◌≤◌, ◌<◌, ◌≡◌, refl, ◌↔◌, true, false, Option, none,
  some, [], ◌∷◌, arith,
}
use waydisplay.Buffer.{
  retain_target, after_release, fresh_buffer, Layout, holding, retaining, last_out, departed,
  Shared, load, exchange, subtract, free, Reachable, begin, then_turn,
}
use waydisplay.Buffer.Counts.{owners, all_departed}
use waydisplay.Buffer.References.{freed_once, no_use_after_free}
use waydisplay.Buffer.Range.{cpu_range_valid, range_exact}
use waydisplay.Buffer.Frame.{frame_init, frame_clone, Plane, drm_prime, PixelFrame}
use waydisplay.Buffer.Frame.Leaks.{Accounted, clone_loses_nothing}

abbrev wrapped : Layout
wrapped = record { size = 4096; capacity = 4096; inline_storage = false }

-- The owner has loaded the counter for a second reference.
abbrev asking : Shared
asking = record { refs = 1; callers = retaining 1 ∷ []; freed = 0; released = 0 }

abbrev two_owners : Shared
two_owners = record { refs = 2; callers = holding ∷ holding ∷ []; freed = 0; released = 0 }

abbrev one_departed : Shared
one_departed = record { refs = 1; callers = departed ∷ holding ∷ []; freed = 0; released = 0 }

abbrev counted_out : Shared
counted_out = record { refs = 0; callers = departed ∷ last_out ∷ []; freed = 0; released = 0 }

abbrev over : Shared
over = record { refs = 0; callers = departed ∷ departed ∷ []; freed = 1; released = 1 }

to_counted_out : Reachable wrapped counted_out
unfolding retain_target after_release
to_counted_out =
    then_turn one_departed counted_out
      (then_turn two_owners one_departed
        (then_turn asking two_owners
          (then_turn fresh_buffer asking begin (load fresh_buffer 0 (omega arith) refl))
          (exchange asking 0 1 2 (omega arith) refl refl refl))
        (subtract two_owners 0 (omega arith) refl))
      (subtract one_departed 1 (omega arith) refl)

freed_once_example :
    (over.refs ≡ owners over.callers)
    × (over.freed ≡ (if all_departed over.callers then 1 else 0))
    × (over.released ≡ (if wrapped.inline_storage then 0 else over.freed))
freed_once_example =
    freed_once wrapped over
      (then_turn counted_out over to_counted_out (free counted_out 1 (omega arith) refl))

no_use_after_free_example : counted_out.freed ≡ 0
no_use_after_free_example =
    no_use_after_free wrapped counted_out over to_counted_out
      (free counted_out 1 (omega arith) refl)

range_exact_example :
    (cpu_range_valid wrapped 96 10 20 200 ≡ true)
    ↔ ((0 < 10) × (0 < 20) × (10 * 4 ≤ 200) × (96 + (20 - 1) * 200 + 10 * 4 ≤ 4096))
range_exact_example = range_exact wrapped 96 10 20 200 (omega arith) (omega arith) (omega arith)

abbrev prime_plane : ℕ → Plane
prime_plane n = record { fd = some n; stride = 256; offset = 0; modifier = 0 }

abbrev prime_frame : PixelFrame
prime_frame = record {
  storage = drm_prime (prime_plane 7 ∷ prime_plane 8 ∷ []);
  width = 64;
  height = 48;
  fourcc = 875713112;
  pts_usec = 1000;
}

-- The duplication of the second descriptor fails.
abbrev second_fails : ℕ → Option ℕ
second_fails zero = some 12
second_fails (suc _) = none

second_plane_test : (frame_clone frame_init second_fails true prime_frame).closed ≡ 12 ∷ []
unfolding frame_clone
second_plane_test = refl

clone_loses_nothing_example :
    Accounted second_fails frame_init (frame_clone frame_init second_fails true prime_frame)
clone_loses_nothing_example = clone_loses_nothing frame_init second_fails true prime_frame
