-- ===== src/Utils/SignalHandler.antt =====
-- src/utils/signal_handler.cpp. The one instance is the state; what `sigaction` answers is an
-- argument. A callback is one of the three that the code stores, and running it nests calls of
-- HandleSignalImpl, which `depth` bounds as the stack does.
use camera_subsystem.Prelude.{
  ℕ, zero, suc, ◌≡◌, refl, ap, ◌∙◌, Bool, true, false, not, Option, none, some, List, [], ◌∷◌,
  arith, if◌then◌else◌, Bytes, codes, bytes_eq, nat_eq,
}

-- The signals that the code names; any other number is `other`.
pub data Signal : Type 0 where
  sighup sigint sigquit sigill sigtrap sigabrt sigbus sigfpe sigkill sigusr1 : Signal
  sigsegv sigusr2 sigpipe sigalrm sigterm sigstkflt sigchld sigcont sigstop sigtstp : Signal
  sigttin sigttou sigurg sigxcpu sigxfsz sigvtalrm sigprof sigwinch sigio sigpwr sigsys : Signal
  other : ℕ → Signal

unfoldable pub get_signal_name : Signal → Bytes
get_signal_name sigint = codes "SIGINT"
get_signal_name sigterm = codes "SIGTERM"
get_signal_name sigkill = codes "SIGKILL"
get_signal_name sighup = codes "SIGHUP"
get_signal_name sigquit = codes "SIGQUIT"
get_signal_name sigsegv = codes "SIGSEGV"
get_signal_name sigabrt = codes "SIGABRT"
get_signal_name sigfpe = codes "SIGFPE"
get_signal_name sigbus = codes "SIGBUS"
get_signal_name sigpipe = codes "SIGPIPE"
get_signal_name sigalrm = codes "SIGALRM"
get_signal_name sigusr1 = codes "SIGUSR1"
get_signal_name sigusr2 = codes "SIGUSR2"
get_signal_name sigchld = codes "SIGCHLD"
get_signal_name sigcont = codes "SIGCONT"
get_signal_name sigstop = codes "SIGSTOP"
get_signal_name sigtstp = codes "SIGTSTP"
get_signal_name _ = codes "UNKNOWN"

unfoldable pub is_valid_signal : Signal → Bool
is_valid_signal (other n) = false
is_valid_signal _ = true

-- `[this](int s) { DefaultStopCallback(s); }`, `[this](int s) { HandleSignalImpl(s); }`, which
-- Initialize registers, and a function of the owner, by its number.
pub data Callback : Type 0 where
  default_stop forward : Callback
  owner : ℕ → Callback

pub record SignalHandler : Type 0 where
  pub should_stop : Bool
  pub captured_signal : Option Signal
  pub callback : Option Callback
  pub initialized : Bool
  -- What the successful calls of `sigaction` set, the last one first: this handler, or the default
  -- one; and the owner functions that ran.
  pub actions : List (Signal × Bool)
  pub ran : List (ℕ × Signal)

unfoldable pub new_signal_handler : SignalHandler
new_signal_handler = record {
  should_stop = false;
  captured_signal = none;
  callback = none;
  initialized = false;
  actions = [];
  ran = [];
}

unfoldable pub reset : SignalHandler → SignalHandler
reset h = record h { should_stop = false; captured_signal = none }

unfoldable pub set_default_stop_callback : SignalHandler → SignalHandler
set_default_stop_callback h = record h { callback = some default_stop }

-- With whether `sigaction` succeeds.
unfoldable pub register_signal : SignalHandler → Signal → Callback → Bool → SignalHandler × Bool
unfolding is_valid_signal
register_signal h n f accepted =
    if not (is_valid_signal n)
    then (h, false)
    else (if not accepted
        then (h, false)
        else (record h { callback = some f; actions = (n, true) ∷ h.actions }, true))

unfoldable pub restore_default_handler : SignalHandler → Signal → Bool → SignalHandler
restore_default_handler h n accepted =
    if accepted then record h { actions = (n, false) ∷ h.actions } else h

-- Initialize, with the answers of `sigaction` for SIGINT, for SIGTERM, and to the restoration.
unfoldable pub initialize : SignalHandler → Bool → Bool → Bool → SignalHandler × Bool
unfolding set_default_stop_callback register_signal restore_default_handler
initialize h int_ok term_ok back_ok =
    if h.initialized
    then (h, false)
    else (let (h1, first) = register_signal (set_default_stop_callback h) sigint forward int_ok in
        if not first
        then (h1, false)
        else (let (h2, second) = register_signal h1 sigterm forward term_ok in
            if not second
            then (restore_default_handler h2 sigint back_ok, false)
            else (record h2 { initialized = true }, true)))

-- The destructor.
unfoldable pub destroy : SignalHandler → Bool → Bool → SignalHandler
unfolding restore_default_handler
destroy h int_ok term_ok =
    if h.initialized
    then restore_default_handler (restore_default_handler h sigint int_ok) sigterm term_ok
    else h

-- Running the callback, where `nested` is a further call of HandleSignalImpl.
abbrev pub run_callback :
    SignalHandler → Signal → Option SignalHandler → Option Callback → Option SignalHandler
run_callback h n nested none = some h
run_callback h n nested (some default_stop) = some (record h { should_stop = true })
run_callback h n nested (some forward) = nested
run_callback h n nested (some (owner k)) = some (record h { ran = (k, n) ∷ h.ran })

-- HandleSignalImpl, with room for `depth` calls of it on the stack; none when they do not fit.
unfoldable pub handle_signal : ℕ → SignalHandler → Signal → Option SignalHandler
handle_signal zero h n = none
handle_signal (suc depth) h n =
    let caught = record h { captured_signal = some n } in
    run_callback caught n (handle_signal depth caught n) h.callback

forward_overflows :
    (depth : ℕ) (h : SignalHandler) (n : Signal)
    → h.callback ≡ some forward
    → handle_signal depth h n ≡ none
unfolding handle_signal
forward_overflows zero h n e = refl
forward_overflows (suc depth) h n e =
    let caught = record h { captured_signal = some n } in
    ap (run_callback caught n (handle_signal depth caught n)) e ∙ forward_overflows depth caught n e

initialize-callback :
    (h : SignalHandler) (int_ok term_ok back_ok : Bool)
    → (initialize h int_ok term_ok back_ok).1 ≡ true
    → (initialize h int_ok term_ok back_ok).0.callback ≡ some forward
unfolding initialize register_signal is_valid_signal
initialize-callback h int_ok term_ok back_ok = ground arith

-- Once Initialize has succeeded, a signal is never handled to the end: HandleSignalImpl calls
-- itself through the callback that Initialize registered, whatever room the stack has.
pub initialized_recurses :
    (h : SignalHandler) (int_ok term_ok back_ok : Bool) (depth : ℕ) (n : Signal)
    → (initialize h int_ok term_ok back_ok).1 ≡ true
    → handle_signal depth (initialize h int_ok term_ok back_ok).0 n ≡ none
initialized_recurses h int_ok term_ok back_ok depth n done =
    forward_overflows depth _ n (initialize-callback h int_ok term_ok back_ok done)
