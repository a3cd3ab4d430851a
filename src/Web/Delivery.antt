-- ===== src/Web/Delivery.antt =====
-- What is sent after the websocket was closed for the access point's shutdown.
use espidf_component_webmana.Prelude.{
  ℕ, zero, suc, ◌≤◌, ◌≡◌, refl, ap, ◌∙◌, true, none, some, List, [], ◌∷◌, drop, length, arith,
}
use espidf_component_webmana.Prelude.Text.{Bytes}
use espidf_component_webmana.Esp.{esp_err_invalid_state}
use espidf_component_webmana.Web.Socket.{
  Httpd, Link, deliver, send_raw_async, ws_async_send, close_active_websocket_before_ap_shutdown,
  get_current_session_roles,
}

-- So many jobs of the queue are run.
unfoldable pub run_queue : {h : Httpd} → ℕ → Link h → Link h
unfolding ws_async_send
run_queue zero s = s
run_queue (suc n) s = run_queue n (ws_async_send s)

drop_all : (n : ℕ) (q : List Bytes) → length q ≤ n → drop n q ≡ []
drop_all zero [] a = refl
drop_all zero (b ∷ q) a = absurd (omega arith)
drop_all (suc n) [] a = refl
drop_all (suc n) (b ∷ q) a = drop_all n q (omega arith)

drop_none : (n : ℕ) → ◌≡◌ {A = List Bytes} (drop n []) []
drop_none zero = refl
drop_none (suc n) = refl

drop_next : (n : ℕ) (q : List Bytes) → drop n (drop 1 q) ≡ drop (suc n) q
drop_next n [] = drop_none n
drop_next n (b ∷ q) = refl

module _ {h : Httpd} where
  -- One job, without a websocket.
  ws_async_send-none :
      (s : Link h) (q : List Bytes)
      → s.websocket_file_descriptor ≡ none
      → s.queue ≡ q
      → ws_async_send s ≡ record s { queue = drop 1 q }
  unfolding ws_async_send deliver
  ws_async_send-none s [] e jobs = ground arith
  ws_async_send-none s (buf ∷ rest) e jobs = ground arith

  run_queue-empty : (n : ℕ) (s : Link h) → s.queue ≡ [] → run_queue n s ≡ s
  unfolding run_queue ws_async_send
  run_queue-empty zero s e = refl
  run_queue-empty (suc n) s e =
      let one : ws_async_send s ≡ s = ground arith in
      ap (λ t. run_queue n t) one ∙ run_queue-empty n s e

  run_queue-none :
      (n : ℕ) (s : Link h)
      → s.websocket_file_descriptor ≡ none
      → run_queue n s ≡ record s { queue = drop n s.queue }
  unfolding run_queue ws_async_send deliver
  run_queue-none zero s e = refl
  run_queue-none (suc n) s e =
      ap (λ t. run_queue n t) (ws_async_send-none s s.queue e refl)
      ∙ run_queue-none n (record s { queue = drop 1 s.queue }) e
      ∙ ap (λ q. record s { queue = q }) (drop_next n s.queue)

  send_raw_async-none :
      (buf : Bytes) (s : Link h)
      → s.http_server ≡ true
      → s.websocket_file_descriptor ≡ none
      → send_raw_async buf s ≡ (esp_err_invalid_state, s)
  unfolding send_raw_async
  send_raw_async-none buf s e f = ground arith

  close-none :
      (s : Link h)
      → s.http_server ≡ true
      → let closed = close_active_websocket_before_ap_shutdown s in
        (closed.websocket_file_descriptor ≡ none)
        × (closed.http_server ≡ true)
        × (closed.queue ≡ s.queue)
  unfolding close_active_websocket_before_ap_shutdown
  close-none s e = ground arith

-- The link once a new websocket is open.
abbrev pub reconnected : {h : Httpd} → ℕ → Link h → Link h
reconnected fd s = record s { websocket_file_descriptor = some fd }

-- Once the websocket of a running server is closed, new answers are refused with
-- ESP_ERR_INVALID_STATE and not queued, and the answers that are still queued are dropped: each job
-- that the server runs takes the oldest one out of the queue and does nothing else, so that when all
-- jobs have run, a websocket that is opened then is sent none of them, however many jobs are run.
pub close_active_websocket_before_ap_shutdown_lem :
    (h : Httpd) (s : Link h) (n k fd : ℕ) (buf : Bytes)
    → s.http_server ≡ true
    → length s.queue ≤ n
    → let closed = close_active_websocket_before_ap_shutdown s in
      (send_raw_async buf closed ≡ (esp_err_invalid_state, closed))
      × (run_queue n closed ≡ record closed { queue = [] })
      × (run_queue k closed ≡ record closed { queue = drop k s.queue })
      × (run_queue k (reconnected fd (run_queue n closed))
          ≡ reconnected fd (record closed { queue = [] }))
close_active_websocket_before_ap_shutdown_lem h s n k fd buf e all =
    let closed = close_active_websocket_before_ap_shutdown s in
    let (gone, running, same) = close-none s e in
    let emptied : run_queue n closed ≡ record closed { queue = [] } =
      run_queue-none n closed gone
      ∙ ap (λ q. record closed { queue = drop n q }) same
      ∙ ap (λ q. record closed { queue = q }) (drop_all n s.queue all) in
    (
      send_raw_async-none buf closed running gone,
      emptied,
      run_queue-none k closed gone ∙ ap (λ q. record closed { queue = drop k q }) same,
      ap (λ c. run_queue k (reconnected fd c)) emptied
          ∙ run_queue-empty k (reconnected fd (record closed { queue = [] })) refl,
    )

-- The roles of the current session outlive its websocket: after a running server has closed it,
-- none is open and the roles are those from before.
pub get_current_session_roles-close :
    (h : Httpd) (s : Link h)
    → s.http_server ≡ true
    → let closed = close_active_websocket_before_ap_shutdown s in
      (closed.websocket_file_descriptor ≡ none)
      × (get_current_session_roles closed ≡ get_current_session_roles s)
unfolding close_active_websocket_before_ap_shutdown get_current_session_roles
get_current_session_roles-close h s e = ground arith
