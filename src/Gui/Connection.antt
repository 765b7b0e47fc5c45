-- ===== src/Gui/Connection.antt =====
-- `guiRunSession` and `guiRunForever` of client/gui.go, beside the console's loops.
use claude_distant.Common.{Bool, List, Option, [], false, none, some, true, ℕ, ◌++◌, ◌∷◌}
use claude_distant.Protocol.{
  CommandMessage, Message, type_command, type_heartbeat_ack, type_other, type_registered,
  type_session_terminated,
}
use claude_distant.Session.{
  Inbound, InboundJson, SessionEnd, lost, read_failure, received, session_failed,
  session_terminated,
}
use claude_distant.Session.Reconnect.{
  Round, Stop, context_cancelled, jitter, killed_by_relay, min_backoff, next_backoff, still_running,
}
use claude_distant.Text.{Text, codes}

-- What a session of the window does.
pub data GuiEffect : Type 0 where
  gui_sent_register : Message → GuiEffect
  set_identity : Text → Text → GuiEffect
  set_session_code : Text → GuiEffect
  set_status : Text → GuiEffect
  journaled : Text → GuiEffect
  gui_started_handle : CommandMessage → GuiEffect
  gui_logged : Text → GuiEffect
  gui_ran_session : GuiEffect
  gui_waited : ℕ → GuiEffect

abbrev pub status_connecting : Text
status_connecting = codes "reconnexion en cours…"

abbrev pub status_connected : Text
status_connected = codes "connecté"

abbrev pub status_disconnected : Text
status_disconnected = codes "déconnecté"

abbrev pub gui_on_registered : Option Text → List GuiEffect
gui_on_registered none = []
gui_on_registered (some session_code) =
    set_session_code session_code
    ∷ set_status status_connected
    ∷ journaled (codes "connecté, code de session " ++ session_code)
    ∷ []

abbrev pub gui_on_command : Option CommandMessage → GuiEffect
gui_on_command none = gui_logged (codes "message command invalide")
gui_on_command (some cmd) = gui_started_handle cmd

abbrev pub behind_effects :
    List GuiEffect → List GuiEffect × Option SessionEnd → List GuiEffect × Option SessionEnd
behind_effects xs (ys, end) = (xs ++ ys, end)

-- The loop of `guiRunSession`.
unfoldable pub gui_serve : InboundJson → List Inbound → List GuiEffect × Option SessionEnd
gui_serve json [] = ([], none)
gui_serve json (lost terminated err ∷ inbox) = ([], some (read_failure terminated err))
gui_serve json (received type_session_terminated payload ∷ inbox) = ([], some session_terminated)
gui_serve json (received type_registered payload ∷ inbox) =
    behind_effects (gui_on_registered (json.unmarshal_registered payload)) (gui_serve json inbox)
gui_serve json (received type_command payload ∷ inbox) =
    behind_effects (gui_on_command (json.unmarshal_command payload) ∷ []) (gui_serve json inbox)
gui_serve json (received type_heartbeat_ack payload ∷ inbox) = gui_serve json inbox
gui_serve json (received (type_other name) payload ∷ inbox) =
    behind_effects (gui_logged (codes "message inconnu reçu du relay: " ++ name) ∷ [])
      (gui_serve json inbox)

-- `guiRunSession`, by the host's name and system and the errors of `DialRelay` and of the write of the
-- `register` message.
unfoldable pub gui_run_session :
    InboundJson
    → Text
    → Text
    → Option Text
    → Option Text
    → Message
    → List Inbound
    → List GuiEffect × Option SessionEnd
unfolding gui_serve
gui_run_session json host goos (some err) register_error register inbox =
    ([], some (session_failed err))
gui_run_session json host goos none (some err) register inbox = (
  set_identity host goos ∷ gui_sent_register register ∷ [],
  some (session_failed (codes "envoi register: " ++ err)),
)
gui_run_session json host goos none none register inbox =
    behind_effects (set_identity host goos ∷ gui_sent_register register ∷ []) (gui_serve json inbox)

abbrev pub GuiLoop : Type 0
GuiLoop = List GuiEffect × Stop

abbrev pub gui_then : GuiEffect → GuiLoop → GuiLoop
gui_then x (xs, stop) = (x ∷ xs, stop)

unfoldable pub gui_wait_for : Bool → ℕ → GuiLoop → GuiLoop
gui_wait_for true d later = ([], context_cancelled)
gui_wait_for false d later = gui_then (gui_waited d) later

-- Behind the second look at the context.
unfoldable pub gui_after_end : SessionEnd → ℕ → Round → GuiLoop → GuiLoop
unfolding gui_wait_for
gui_after_end session_terminated backoff r later = (
  journaled (codes "session terminée par l'opérateur (kill-switch) : arrêt, pas de reconnexion")
      ∷ [],
  killed_by_relay,
)
gui_after_end (session_failed err) backoff r later =
    gui_then (journaled (codes "connexion perdue: " ++ err))
      (gui_wait_for r.done_waiting (jitter r.random backoff) later)

unfoldable pub gui_after_session : Bool → SessionEnd → ℕ → Round → GuiLoop → GuiLoop
unfolding gui_after_end
gui_after_session true end backoff r later = ([], context_cancelled)
gui_after_session false end backoff r later =
    gui_then (set_status status_disconnected) (gui_after_end end backoff r later)

unfoldable pub gui_run_round : Bool → ℕ → Round → GuiLoop → GuiLoop
unfolding gui_after_session
gui_run_round true backoff r later = ([], context_cancelled)
gui_run_round false backoff r later =
    gui_then (set_status status_connecting)
      (gui_then gui_ran_session (gui_after_session r.done_after r.session backoff r later))

unfoldable pub gui_run_rounds : ℕ → List Round → GuiLoop
unfolding gui_run_round
gui_run_rounds backoff [] = ([], still_running)
gui_run_rounds backoff (r ∷ rounds) =
    gui_run_round r.done_before backoff r (gui_run_rounds (next_backoff backoff) rounds)

-- `guiRunForever`
unfoldable pub gui_run_forever : List Round → GuiLoop
unfolding gui_run_rounds
gui_run_forever = gui_run_rounds min_backoff
