-- ===== src/Errors.antt =====
-- The error values that the packages pass round, and the store that they point into.
-- `Err` has a constructor for each type with an `Error()` method in pkerr, pksync and pkservices
-- (ManagerError is the record of Pkservices/Report, since nothing wraps it), for the two context
-- errors, for `fmt.Errorf` with and without %w, and `foreign` for an error of any other package.
pub mod Chain
pub mod Show
use g_rpeakec_go.Prelude.{ℕ, List, Option}
use g_rpeakec_go.Prelude.Text.{Text}

-- pkerr/sentinelErr.go. `code` and `code_original` are uint32.
pub record Sentinel : Type 0 where
  pub issuer : Text
  pub code : ℕ
  pub name : Text
  pub grpc_code : ℕ
  pub default_message : Text
  pub code_original : ℕ

-- protogen.TraceInfo. The frames are pointers in Go; a frame belongs to one Error alone.
pub record TraceInfo : Type 0 where
  pub app_name : Text
  pub app_host : Text
  pub stack_trace : Text
  pub additional_context : Text

-- protogen.Error. A UUID, a time and a packed detail are opaque numbers.
pub record Proto : Type 0 where
  pub id : ℕ
  pub issuer : Text
  pub code : ℕ
  pub grpc_code : ℕ
  pub name : Text
  pub message : Text
  pub source_error : Text
  pub source_type : Text
  pub time : ℕ
  pub details : List ℕ
  pub trace : List TraceInfo

mutual
  pub data Err : Type 0 where
    canceled deadline_exceeded wait_group_closed : Err
    -- An error of another package: its identity and its text.
    foreign : ℕ → Text → Err
    -- `fmt.Errorf` without and with %w: the text is fixed when the error is made.
    text_err : Text → Err
    wrapped : Text → Err → Err
    -- pkerr.PanicError around an error, and around another value with its %+v text.
    panic_err : Err → Err
    panic_val : Text → Err
    -- *SentinelError and *Error: addresses.
    sentinel : ℕ → Err
    proto : ℕ → Err
    -- pkerr.APIError: Proto, Sentinel (may be nil), Source (may be nil).
    api : ℕ → Option ℕ → Source → Err
    grpc_code : ℕ → Err
    client : Err → Err
    -- pkservices.ServiceError, pkservices.ServicesErrors
    service : Text → Err → Err
    services : Errs → Err
    -- pksync.ConcurrentMapError: MapFuncErr and ValueIndex; Value is the slice's element there.
    map_failed : Err → ℕ → Err

  pub data Source : Type 0 where
    no_source : Source
    source : Err → Source

  pub data Errs : Type 0 where
    nil : Errs
    cons : Err → Errs → Errs

-- What the pointers point to. `next` is the first address that is not in use.
pub record Heap : Type 0 where
  pub sentinel_at : ℕ → Sentinel
  pub proto_at : ℕ → Proto
  pub next : ℕ

abbrev pub errs_to_list : Errs → List Err
errs_to_list nil = List.[]
errs_to_list (cons e es) = List.◌∷◌ e (errs_to_list es)

abbrev pub errs_of_list : List Err → Errs
errs_of_list List.[] = nil
errs_of_list (List.◌∷◌ e es) = cons e (errs_of_list es)
