-- ===== src/Scheduler/Naming.antt =====
-- What the requests to rename and to delete a timer do to the map.
use espidf_component_webmana.Prelude.{
  ◌≡◌, refl, sym, ap, ◌∙◌, inl, inr, Bool, true, false, not, ◌&&◌, Option, none, some,
  if◌then◌else◌, Option-cases, Bool-cases,
}
use espidf_component_webmana.Prelude.Text.{Bytes, same_text, same_text_iff}
use espidf_component_webmana.Web.Socket.{Httpd}
use espidf_component_webmana.Scheduler.{Timer, find_timer}
use espidf_component_webmana.Scheduler.Flash.{Blobs, Codec, NameRequest, RenameRequest, is_some}
use espidf_component_webmana.Scheduler.Map.{
  erase_timer, find_timer-set_timer, find_timer-erase_timer,
}
use espidf_component_webmana.Scheduler.Requests.{
  State, handle_request_delete, handle_request_rename, rename_timer, rename_found, delete_timer,
}
use espidf_component_webmana.Scheduler.Saving.{list_lem}

module _ {h : Httpd} {b : Blobs} (c : Codec) where
  find_timer-rename_timer :
      (req : RenameRequest) (timer : Timer) (s : State h b) (n : Bytes)
      → find_timer (rename_timer c req timer s).name2timer n ≡ (
          if same_text req.new_name n
          then some timer
          else if same_text req.old_name n
          then none
          else find_timer s.name2timer n)
  unfolding rename_timer
  find_timer-rename_timer req timer s n =
      find_timer-set_timer req.new_name timer (erase_timer req.old_name s.name2timer) n
      ∙ ap (λ o. if same_text req.new_name n then some timer else o)
          (find_timer-erase_timer req.old_name s.name2timer n)

  rename_found_lem :
      (found : Option Timer) (taken : Bool) (req : RenameRequest) (s : State h b) (n : Bytes)
      → find_timer (rename_found c found taken req s).1.name2timer n ≡ (
          if is_some found && not taken
          then if same_text req.new_name n
            then found
            else if same_text req.old_name n
            then none
            else find_timer s.name2timer n
          else find_timer s.name2timer n)
  unfolding rename_found
  rename_found_lem none taken req s n = refl
  rename_found_lem (some timer) true req s n = refl
  rename_found_lem (some timer) false req s n =
      ap (λ ts. find_timer ts n) (list_lem c req.request_id (rename_timer c req timer s)).0
      ∙ find_timer-rename_timer req timer s n

  -- A request to rename a timer: if there is one of the old name and none of the new one, the
  -- timer is found under the new name, none under the old one, and every other name has the timer, or
  -- none, that it had; otherwise the map is as before.
  pub handle_request_rename_lem :
      (req : RenameRequest) (s : State h b) (n : Bytes)
      → find_timer (handle_request_rename c req s).1.name2timer n ≡ (
          if is_some (find_timer s.name2timer req.old_name)
            && not (is_some (find_timer s.name2timer req.new_name))
          then if same_text req.new_name n
            then find_timer s.name2timer req.old_name
            else if same_text req.old_name n
            then none
            else find_timer s.name2timer n
          else find_timer s.name2timer n)
  unfolding handle_request_rename
  handle_request_rename_lem req s n =
      rename_found_lem (find_timer s.name2timer req.old_name)
        (is_some (find_timer s.name2timer req.new_name)) req s n

  -- A request to delete a timer, known or not: none is found under its name then, and every other
  -- name has the timer, or none, that it had.
  pub handle_request_delete_lem :
      (req : NameRequest) (s : State h b) (n : Bytes)
      → find_timer (handle_request_delete c req s).1.name2timer n
        ≡ (if same_text req.name n then none else find_timer s.name2timer n)
  unfolding handle_request_delete delete_timer
  handle_request_delete_lem req s n = elim (Option-cases (find_timer s.name2timer req.name)) [
    | inl unknown ↦
        ap (λ o. find_timer (delete_timer c (is_some o) req s).1.name2timer n) unknown
        ∙ elim (Bool-cases (same_text req.name n)) [
          | inl same ↦ rw same (
              ap (λ name. find_timer s.name2timer name) (sym ((same_text_iff req.name n).0 same))
              ∙ unknown)
          | inr other ↦ rw other refl
        ]
    | inr (timer, known) ↦
        let erased : State h b = record s {
          name2timer = erase_timer req.name s.name2timer;
          world = (b.commit (b.erase_key req.name s.world).1).1;
        } in
        ap (λ o. find_timer (delete_timer c (is_some o) req s).1.name2timer n) known
        ∙ ap (λ ts. find_timer ts n) (list_lem c req.request_id erased).0
        ∙ find_timer-erase_timer req.name s.name2timer n
  ]
