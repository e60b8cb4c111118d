-- ===== src/Server/Conn/Settling.antt =====
-- SETTINGS and connection windows, as internal/server/conn.go applies them.
use zerodeps_hackk.Base.{ℕ, ◌≤◌, ◌≡◌, true, ◌==◌, ◌&&◌, List, [], ◌∷◌, All, arith}
use zerodeps_hackk.H2.{HeaderCodec, Outcome, done, failed, panicked, lift, Ensures}
use zerodeps_hackk.Flow.Window.{max_window_size}
use zerodeps_hackk.Flow.Sender.{Sender}
use zerodeps_hackk.Flow.Sender
use zerodeps_hackk.Frame.Types.{Setting, SettingsFrame}
use zerodeps_hackk.Frame.WellFormed.{SettingOk, LegalValue}
use zerodeps_hackk.Stream.State.{Requests, Encoder, Writer}
use zerodeps_hackk.Stream.Table.{
  conn_window_update, set_initial_window_size, set_header_table_size, set_max_header_list_size,
}
use zerodeps_hackk.Stream.Table.Invariant.{Inv}
use zerodeps_hackk.Stream.Table.History.{step, step-Inv, conn_credited, initial_window_set}
use zerodeps_hackk.Server.Conn.{
  Conn, ConnWriter, with_handler, apply_setting, apply_settings, handle_settings,
}
use zerodeps_hackk.Server.Conn.Sound.{
  Sound, Kept, Sound-Kept, Kept-bind, Kept-if, Sound-writer, enqueue-Kept,
}

legal_window : (s : Setting) → s.id ≡ 4 → LegalValue s → s.value ≤ max_window_size
legal_window s e legal = omega (arith, legal.1 e)

module _ {C R E W P : Type 0} where
  sender-Sound :
      (c : Conn C R E W P) (x : Sender)
      → Sound c
      → Inv (record c.handler { sender = x })
      → Sound (record c { handler = record c.handler { sender = x } })
  sender-Sound c x v inv = record {
    table = inv;
    in_step = v.in_step;
    bounds = v.bounds;
    octets = v.octets;
    waiting = v.waiting;
  }

  -- A step of the sender alone.
  sender-Kept :
      (c : Conn C R E W P) (o : Outcome Sender)
      → Sound c
      → Ensures Inv (lift (λ x. record c.handler { sender = x }) o)
      → Kept (with_handler c (lift (λ x. record c.handler { sender = x }) o))
  unfolding with_handler
  sender-Kept c (done x) v inv = sender-Sound c x v inv
  sender-Kept c (failed e x) v inv = Sound-Kept e _ (sender-Sound c x v inv)
  sender-Kept c panicked v inv = inv

module _ {C R E W P : Type 0} ⦃codec : HeaderCodec C⦄ ⦃reqs : Requests R⦄ ⦃enc : Encoder E⦄
    ⦃writer : Writer W⦄ ⦃conn_writer : ConnWriter W P⦄ where
  pub conn_window_update-Kept :
      (c : Conn C R E W P) (k : ℕ)
      → Sound c
      → Kept (with_handler c (conn_window_update c.handler k))
  unfolding conn_window_update step
  conn_window_update-Kept c k v =
      sender-Kept c (Sender.credit_conn c.handler.sender k) v
        (step-Inv c.handler (conn_credited k) v.table tt)

  initial_window-Kept :
      (c : Conn C R E W P) (k : ℕ)
      → k ≤ max_window_size
      → Sound c
      → Kept (with_handler c (set_initial_window_size c.handler k))
  unfolding set_initial_window_size step
  initial_window-Kept c k le v =
      sender-Kept c (Sender.set_initial_size c.handler.sender k) v
        (step-Inv c.handler (initial_window_set k) v.table le)

  Sound-enc :
      (c : Conn C R E W P) (e : E)
      → Sound c
      → Sound (record c { handler = record c.handler { enc = e } })
  Sound-enc c e v = record {
    table = record { core = v.table.core; block = v.table.block };
    in_step = v.in_step;
    bounds = v.bounds;
    octets = v.octets;
    waiting = v.waiting;
  }

  apply_setting-Kept :
      (c : Conn C R E W P) (s : Setting) → SettingOk s → Sound c → Kept (apply_setting c s)
  unfolding apply_setting set_header_table_size set_max_header_list_size
  apply_setting-Kept c s ok v =
      Kept-if (s.id == 5) _ _ (λ _. Sound-writer c _ v)
        λ _.
          Kept-if (s.id == 9) _ _
            (λ _.
              Kept-if (c.settings_applied && _) _ _ (λ _. v.table)
                (λ _. record {
                  table = v.table;
                  in_step = v.in_step;
                  bounds = v.bounds;
                  octets = v.octets;
                  waiting = v.waiting;
                }))
            λ _.
              Kept-if (s.id == 1) _ _ (λ _. Sound-enc c _ v)
                λ _.
                  Kept-if (s.id == 6) _ _ (λ _. Sound-enc c _ v)
                    λ _.
                      Kept-if (s.id == 4) _ _
                        (λ e. initial_window-Kept c s.value (legal_window s (ground arith) ok.2) v)
                        (λ _. v)

  apply_settings-Kept :
      (c : Conn C R E W P) (ss : List Setting)
      → All SettingOk ss
      → Sound c
      → Kept (apply_settings c ss)
  unfolding apply_settings
  apply_settings-Kept c [] ok v = v
  apply_settings-Kept c (s ∷ ss) (p, ok) v =
      Kept-bind (apply_setting c s) (λ c'. apply_settings c' ss) (apply_setting-Kept c s p v)
        (λ c' w. apply_settings-Kept c' ss ok w)

  pub handle_settings-Kept :
      (c : Conn C R E W P) (f : SettingsFrame)
      → All SettingOk f.settings
      → Sound c
      → Kept (handle_settings c f)
  unfolding handle_settings
  handle_settings-Kept c f ok v =
      Kept-if f.ack _ _
        (λ _. record {
          table = v.table;
          in_step = v.in_step;
          bounds = v.bounds;
          octets = v.octets;
          waiting = v.waiting;
        })
        (λ _.
          Kept-bind (apply_settings c f.settings) _ (apply_settings-Kept c f.settings ok v) (λ c' w.
            enqueue-Kept (record c' { settings_applied = true }) _
              (record {
                table = w.table;
                in_step = w.in_step;
                bounds = w.bounds;
                octets = w.octets;
                waiting = w.waiting;
              })))
