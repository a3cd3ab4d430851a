-- ===== src/Web/Dispatch.antt =====
-- Which plugin a message reaches.
use espidf_component_webmana.Prelude.{
  ℕ, ◌+◌, ◌*◌, ◌≡◌, ◌≢◌, ◌∙◌, ap, List, [], ◌∷◌, ◌++◌, All, get_or, arith,
}
use espidf_component_webmana.Prelude.Text.{Bytes}
use espidf_component_webmana.Wifi.Requests.{Receipt, ok, not_for_me, for_me_but_failed}
use espidf_component_webmana.Web.Socket.{Httpd, Link, Plugin, ask_plugins, dispatch}

-- The plugin does nothing with messages of the namespace.
abbrev pub Ignores : {h : Httpd} → ℕ → Plugin h → Type 0
Ignores {h = h} n p = (t : ℕ) (frame : Bytes) (s : Link h) → p n t frame s ≡ (not_for_me, s)

module _ {h : Httpd} (n t : ℕ) (frame : Bytes) (s : Link h) where
  ask_ignoring :
      (p : Plugin h) (ps : List (Plugin h))
      → Ignores n p
      → ask_plugins (p ∷ ps) n t frame s ≡ ask_plugins ps n t frame s
  unfolding ask_plugins
  ask_ignoring p ps i =
      ap
        (λ (r : Receipt × Link h). elim r.0 [
          | ok ↦ (ok, r.1)
          | not_for_me ↦ ask_plugins ps n t frame r.1
          | for_me_but_failed ↦ (for_me_but_failed, r.1)
        ])
        (i t frame s)

  ask_answering :
      (p : Plugin h) (ps : List (Plugin h))
      → (p n t frame s).0 ≢ not_for_me
      → ask_plugins (p ∷ ps) n t frame s ≡ p n t frame s
  unfolding ask_plugins
  ask_answering p ps ne = ground arith

  ask_plugins-append :
      (before after : List (Plugin h)) (p : Plugin h)
      → All (Ignores n) before
      → (p n t frame s).0 ≢ not_for_me
      → ask_plugins (before ++ (p ∷ after)) n t frame s ≡ p n t frame s
  ask_plugins-append [] after p i ne = ask_answering p after ne
  ask_plugins-append (q ∷ before) after p i ne =
      ask_ignoring q (before ++ (p ∷ after)) i.0 ∙ ask_plugins-append before after p i.1 ne

-- A message reaches the plugin that answers it wherever it is registered, and no plugin behind it,
-- if the class itself and the plugins before it ignore the namespace.
dispatch-append :
    (h : Httpd) (own : Plugin h) (before after : List (Plugin h)) (p : Plugin h) (buf : Bytes)
    (s : Link h)
    → let n = get_or buf 0 0 + 256 * get_or buf 1 0 in
      let t = get_or buf 2 0 + 256 * get_or buf 3 0 in
      Ignores n own
      → All (Ignores n) before
      → (p n t buf s).0 ≢ not_for_me
      → dispatch own (before ++ (p ∷ after)) buf s ≡ p n t buf s
unfolding dispatch
dispatch-append h own before after p buf s i is ne =
    ask_plugins-append (get_or buf 0 0 + 256 * get_or buf 1 0)
      (get_or buf 2 0 + 256 * get_or buf 3 0) buf s (own ∷ before) after p (i, is) ne
