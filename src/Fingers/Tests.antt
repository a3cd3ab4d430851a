-- ===== src/Fingers/Tests.antt =====
-- The fingers in a storage in memory, with the reader's port of canned answers.
use espidf_component_webmana.Prelude.{
  ℕ, ◌+◌, ◌*◌, ◌/◌, ◌%◌, get_or, ◌≡◌, refl, true, false, none, some, List, [], ◌∷◌, arith,
  replicate, if◌then◌else◌,
}
use espidf_component_webmana.Prelude.Text.{Bytes, codes, same_text}
use espidf_component_webmana.Esp.{esp_ok}
use espidf_component_webmana.Fingerprint.Ret
use espidf_component_webmana.Fingerprint.Port.{Port}
use espidf_component_webmana.Scheduler.{
  Tm, Timers, always, find_timer, get_current_value_of_schedule,
}
use espidf_component_webmana.Fingers.Storage.{names, schedulers, actions, number, text}
use espidf_component_webmana.Fingers.{index_key, store_finger, rename, or_error, or_return}
use espidf_component_webmana.Fingers.Manager.{
  Manager, detected, enrollment, action, handle_fingerprint_detected, handle_enrollment_update,
  try_delete,
}
use espidf_component_webmana.Fingers.Memory.{Entries, update, memory, memory-KeepsEntries}
use espidf_component_webmana.Fingers.Laws.{rename_lem}
use espidf_component_webmana.Fingers.Detect.{handle_fingerprint_detected-handle_enrollment_update}
use espidf_component_webmana.Fingers.Adopt.{adopt_all, adopt_all-IsKnown, IsKnown}
use espidf_component_webmana.Fingerprint.Identify.{auto_identify}
use espidf_component_webmana.Fingers.R503.{task_detect}
use espidf_component_webmana.Fingers.Misread.{task_detect_misread}
use espidf_component_webmana.Fingers.Undo.{try_delete-handle_enrollment_update}

abbrev no_entries : Entries
no_entries a k = none

decimal_12 : index_key 12 ≡ codes "12"
unfolding index_key
decimal_12 = refl

abbrev enrolled : Entries
enrolled = update schedulers (codes "12") (some (text (codes "ALWAYS"))) (
    update actions (codes "12") (some (number 0))
      (update names (codes "thumb") (some (number 12)) no_entries))

run_store_finger : store_finger memory (codes "thumb") 12 no_entries ≡ (esp_ok, enrolled)
unfolding store_finger or_error
run_store_finger = refl

-- A reader that answers each package with the acknowledgement that the port has at hand.
abbrev port : Port
port = record {
  World = List Bytes;
  flush_input = λ w. w;
  write_bytes = λ s w. w;
  read_bytes = λ n ticks w. elim w [ [] ↦ ([], []) | buf ∷ rest ↦ (buf, rest) ];
  u16_bytes = λ v. v / 256 % 256 ∷ v % 256 ∷ [];
  u32_bytes = λ v. v / 16777216 % 256 ∷ v / 65536 % 256 ∷ v / 256 % 256 ∷ v % 256 ∷ [];
  parse_u16 = λ buf i. 256 * get_or buf i 0 + get_or buf (i + 1) 0;
  parse_u32 = λ buf i.
      16777216 * get_or buf i 0
      + 65536 * get_or buf (i + 1) 0
      + 256 * get_or buf (i + 2) 0
      + get_or buf (i + 3) 0;
}

-- The answer OK to a command.
abbrev acknowledged : Bytes
acknowledged = 0xEF ∷ 0x01 ∷ 0xFF ∷ 0xFF ∷ 0xFF ∷ 0xFF ∷ 7 ∷ 0 ∷ 3 ∷ 0 ∷ 0 ∷ 10 ∷ []

abbrev manager : Manager port memory
manager = record {
  reader = record { target_address = 0xFFFF_FFFF; world = acknowledged ∷ [] };
  world = no_entries;
  has_handler = true;
  has_names = true;
  is_in_enrollment = true;
  previous_irq_line_value = true;
  name = codes "thumb";
  calls = [];
}

abbrev midnight : ℕ → Tm
midnight n = record { tm_wday = 0; tm_hour = 0; tm_min = 0 }

abbrev timers : Timers
timers = (codes "ALWAYS", always) ∷ []

handle_fingerprint_detected-handle_enrollment_update_example :
    (handle_fingerprint_detected
      (λ s. get_current_value_of_schedule midnight timers s 1800000000)
      []
      0
      12
      99
      (handle_enrollment_update 0 0x0F 12 (codes "thumb") manager)).calls
    ≡ action 12 0 ∷ detected 0 12 99 ∷ enrollment 0 0x0F 12 (codes "thumb") ∷ []
unfolding memory-KeepsEntries store_finger or_error same_text find_timer
handle_fingerprint_detected-handle_enrollment_update_example =
    handle_fingerprint_detected-handle_enrollment_update memory memory-KeepsEntries midnight timers
      1800000000 [] (codes "thumb") 12 99 manager enrolled refl refl refl

abbrev renamed : Entries
renamed =
    update names (codes "index") (some (number 12)) (update names (codes "thumb") none enrolled)

rename_lem_example :
    (i : ℕ) × (enrolled names (codes "thumb") ≡ some (number i))
    × (enrolled names (codes "index") ≡ none)
    × (renamed names (codes "index") ≡ (
        if true then some (number i) else if false then none else enrolled names (codes "index")))
unfolding memory-KeepsEntries rename or_return same_text
rename_lem_example =
    rename_lem memory memory-KeepsEntries (codes "thumb") (codes "index") enrolled renamed names
      (codes "index") refl

-- The entries after an enrolment and a deletion.
abbrev forgotten : Entries
forgotten =
    update schedulers (codes "12") none
      (update actions (codes "12") none (update names (codes "thumb") none enrolled))

abbrev deleted : Manager port memory
deleted = record manager {
  reader = record { target_address = 0xFFFF_FFFF; world = [] };
  world = forgotten;
  calls = enrollment 0 0x0F 12 (codes "thumb") ∷ [];
}

run_try_delete :
    try_delete (codes "thumb") (handle_enrollment_update 0 0x0F 12 (codes "thumb") manager)
    ≡ (Ret.ok, deleted)
unfolding try_delete handle_enrollment_update or_error or_return same_text
run_try_delete = refl

try_delete-handle_enrollment_update_example :
    forgotten actions (codes "12") ≡ no_entries actions (codes "12")
unfolding memory-KeepsEntries store_finger or_error same_text
try_delete-handle_enrollment_update_example =
    try_delete-handle_enrollment_update memory memory-KeepsEntries (codes "thumb") 12 manager
      deleted enrolled actions (codes "12") refl refl refl refl run_try_delete

abbrev adopted : Entries
adopted = update schedulers (codes "1") (some (text (codes "ALWAYS"))) (
    update actions (codes "1") (some (number 0))
      (update names (codes "Finger 1") (some (number 1)) no_entries))

run_adopt_all : adopt_all memory (2 ∷ []) 0 no_entries ≡ some adopted
unfolding adopt_all or_error same_text
run_adopt_all = refl

adopt_all-IsKnown_example : IsKnown memory memory-KeepsEntries 1 adopted
unfolding index_key
adopt_all-IsKnown_example =
    adopt_all-IsKnown memory memory-KeepsEntries (2 ∷ []) no_entries adopted 0 1 run_adopt_all
      (omega arith) (omega arith) refl

-- An answer that is noise.
abbrev noise : Bytes
noise = replicate 17 0

abbrev disturbed : Manager port memory
disturbed = record manager {
  reader = record { target_address = 0xFFFF_FFFF; world = noise ∷ [] };
  world =
      update schedulers (codes "0") (some (text (codes "ALWAYS")))
        (update actions (codes "0") (some (number 7)) no_entries);
}

task_detect_misread_example :
    (m' : Manager port memory) × (task_detect 1 false (λ s. 65535) [] disturbed ≡ some m')
    × (m'.calls ≡ action 0 7 ∷ detected 0 0 0 ∷ [])
unfolding memory-KeepsEntries auto_identify same_text index_key
task_detect_misread_example =
    task_detect_misread memory memory-KeepsEntries 1 (λ s. 65535) [] 7 (codes "ALWAYS")
      (record { finger_index = 0; score = 0 }) (record { target_address = 0xFFFF_FFFF; world = [] })
      disturbed refl refl refl refl refl refl
