-- ===== src/Web/Socket.antt =====
-- cpp/webmanager_base.hh and cpp/webmanager_async_response.hh: the websocket. `handle_webmanager_ws`
-- takes messages to the plugins, and `SendRawAsync` queues answers, which `ws_async_send` sends later.
use espidf_component_webmana.Prelude.{
  ℕ, ◌+◌, ◌*◌, Bool, not, ◌||◌, Option, none, some, List, [], ◌∷◌, ◌++◌, ◌==◌, ltb, if◌then◌else◌,
  get_or,
}
use espidf_component_webmana.Prelude.Text.{Bytes, c_str}
use espidf_component_webmana.Esp.{esp_ok, esp_fail, esp_err_invalid_arg, esp_err_invalid_state}
use espidf_component_webmana.Wifi.Requests.{Receipt, ok, not_for_me, for_me_but_failed}
use espidf_component_webmana.Sessions.{Session, validate_session_token}
use espidf_component_webmana.Web.Http.{Reply, error}

-- What is sent over a websocket: a binary frame, or the close frame 1000.
pub data Frame : Type 0 where
  binary : Bytes → Frame
  close : Frame

-- The web server, with its files of connections.
pub record Httpd : Type 1 where
  pub World : Type 0
  -- httpd_ws_send_frame_async
  pub send_frame : (fd : ℕ) → Frame → World → ℕ × World
  -- httpd_sess_trigger_close
  pub trigger_close : (fd : ℕ) → World → World
  -- httpd_ws_get_fd_info(…) == HTTPD_WS_CLIENT_WEBSOCKET
  pub is_websocket : (fd : ℕ) → World → Bool
  -- httpd_queue_work: its result
  pub queue_work : World → ℕ × World

-- `queue` holds the buffers of the AsyncResponses that are queued; the descriptor is `none` for -1.
pub record Link (h : Httpd) : Type 0 where
  pub http_server : Bool
  pub websocket_file_descriptor : Option ℕ
  pub current_ws_username : Bytes
  pub current_ws_roles : ℕ
  pub sessions : List Session
  pub queue : List Bytes
  pub world : h.World

-- A message's namespace, type and frame, as ProvideWebsocketMessage takes them.
abbrev pub Plugin : Httpd → Type 0
Plugin h = (namespace_id message_type_id : ℕ) → Bytes → Link h → Receipt × Link h

-- A call of the handler: the handshake, or a frame. `head` is what the first httpd_ws_recv_frame gives
-- (its result, whether the type is binary, the length), `payload` what the second one gives.
pub record SocketRequest : Type 0 where
  pub is_get : Bool
  pub cookie : ℕ × Bytes
  pub fd : ℕ
  pub head : ℕ × Bool × ℕ
  pub payload : ℕ × Bytes

module _ {h : Httpd} where
  -- The result of httpd_queue_work, where it is an error.
  unfoldable pub queue_failed : ℕ → Link h → Link h
  queue_failed ret s =
      if ret == esp_err_invalid_arg || ret == esp_fail
      then record s { websocket_file_descriptor = none }
      else s

  unfoldable pub send_raw_async : Bytes → Link h → ℕ × Link h
  unfolding queue_failed
  send_raw_async buf s =
      if not s.http_server then (esp_fail, s) else elim s.websocket_file_descriptor [
        | none ↦ (esp_err_invalid_state, s)
        | some fd ↦
            let (ret, w) = h.queue_work s.world in
            if ret == esp_ok
            then (ret, record s { queue = s.queue ++ (buf ∷ []); world = w })
            else (ret, queue_failed ret (record s { world = w }))
      ]

  -- The frame goes to the connection that is the active one now.
  unfoldable pub deliver : Bytes → Link h → Link h
  deliver buf s = if not s.http_server then s else elim s.websocket_file_descriptor [
    | none ↦ s
    | some fd ↦
        let (ret, w) = h.send_frame fd (binary buf) s.world in
        if ret == esp_ok
        then record s { world = w }
        else record s { websocket_file_descriptor = none; world = h.trigger_close fd w }
  ]

  -- The server runs the oldest job of its queue.
  unfoldable pub ws_async_send : Link h → Link h
  unfolding deliver
  ws_async_send s = elim s.queue [ [] ↦ s | buf ∷ rest ↦ deliver buf (record s { queue = rest }) ]

  unfoldable pub close_active_websocket_before_ap_shutdown : Link h → Link h
  close_active_websocket_before_ap_shutdown s =
      if not s.http_server then s else elim s.websocket_file_descriptor [
        | none ↦ s
        | some fd ↦
            let w =
              if h.is_websocket fd s.world then (h.send_frame fd close s.world).1 else s.world in
            record s { websocket_file_descriptor = none; world = h.trigger_close fd w }
      ]

  -- The handshake: the result, the answer sent, and the state.
  unfoldable pub open_websocket : SocketRequest → ℕ → Link h → ℕ × Option Reply × Link h
  unfolding c_str validate_session_token
  open_websocket req now s =
      let (err, cookie) = req.cookie in
      let refused = some (error 401 "Authentication required") in
      if not (err == esp_ok)
      then (esp_fail, refused, s)
      else (let (found, ss) = validate_session_token (c_str cookie) now s.sessions in
          elim found [
            | none ↦ (esp_fail, refused, record s { sessions = ss })
            | some (username, roles) ↦ (
              esp_ok,
              none,
              record s { sessions = ss; current_ws_username = username; current_ws_roles = roles },
            )
          ])

  -- The loop over the plugins, up to the first that does not answer NOT_FOR_ME.
  unfoldable pub ask_plugins :
      List (Plugin h) → (namespace_id message_type_id : ℕ) → Bytes → Link h → Receipt × Link h
  ask_plugins [] namespace_id message_type_id frame s = (not_for_me, s)
  ask_plugins (p ∷ ps) namespace_id message_type_id frame s =
      let (receipt, s') = p namespace_id message_type_id frame s in
      elim receipt [
        | ok ↦ (ok, s')
        | not_for_me ↦ ask_plugins ps namespace_id message_type_id frame s'
        | for_me_but_failed ↦ (for_me_but_failed, s')
      ]

  -- The class's own ProvideWebsocketMessage is asked first.
  unfoldable pub dispatch : Plugin h → List (Plugin h) → Bytes → Link h → Receipt × Link h
  unfolding ask_plugins
  dispatch own plugins buf s =
      ask_plugins (own ∷ plugins) (get_or buf 0 0 + 256 * get_or buf 1 0)
        (get_or buf 2 0 + 256 * get_or buf 3 0) buf s

  unfoldable pub receive_message : Plugin h → List (Plugin h) → SocketRequest → Link h → ℕ × Link h
  unfolding dispatch
  receive_message own plugins req s =
      let connected = record s { websocket_file_descriptor = some req.fd } in
      let (ret, is_binary, len) = req.head in
      let (ret', buf) = req.payload in
      if not (ret == esp_ok)
      then (if ret == esp_err_invalid_state then esp_ok else ret, connected)
      else if len == 0 || not is_binary
      then (esp_ok, connected)
      else if not (ret' == esp_ok)
      then (ret', connected)
      else if ltb len 4
      then (esp_ok, connected)
      else (esp_ok, (dispatch own plugins buf connected).1)

  unfoldable pub handle_webmanager_ws :
      Plugin h → List (Plugin h) → SocketRequest → ℕ → Link h → ℕ × Option Reply × Link h
  unfolding open_websocket receive_message
  handle_webmanager_ws own plugins req now s =
      if req.is_get
      then open_websocket req now s
      else (let (ret, s') = receive_message own plugins req s in (ret, none, s'))

  -- GetCurrentSessionRoles()
  unfoldable pub get_current_session_roles : Link h → ℕ
  get_current_session_roles s = s.current_ws_roles
