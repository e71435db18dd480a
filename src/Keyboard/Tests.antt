-- ===== src/Keyboard/Tests.antt =====
-- The key event ring at concrete inputs.
use strawberry_os.Prelude.{◌≡◌, refl, List, [], ◌∷◌, arith}
use strawberry_os.Keyboard.{KeyEventRing, key_event, key_next}
use strawberry_os.Keyboard.Fifo.{Op, press, read, run, run_queue, run_refines}

-- A ring of three places, with one event behind the end of the storage.
abbrev wrapped : KeyEventRing
wrapped = record { rng = 9 ∷ 7 ∷ 8 ∷ []; cnt = 3; nid = 0; eid = 2 }

abbrev script : List Op
script = press 4 ∷ press 5 ∷ read ∷ read ∷ read ∷ []

script_reads : run wrapped script ≡ 8 ∷ 4 ∷ 0 ∷ []
unfolding run key_event key_next
script_reads = refl

run_refines_example : run wrapped script ≡ run_queue 3 (8 ∷ []) script
run_refines_example = run_refines script wrapped (omega arith)
