-- ===== src/Logging.antt =====
-- The slog handler that sends rclone's logs to klog (pkg/rclone/logging.go).
use csi_driver_rclone.Prelude.{
  ℕ, ℤ, pos, negsuc, ◌≡◌, refl, Bool, true, false, List, [], ◌∷◌, ◌++◌, append_assoc, if◌then◌else◌,
  leb, ◌&&◌,
}
use csi_driver_rclone.Text.{Text, codes}

-- A key and its value, as `fmt.Fprint` prints the value.
pub record Attr : Type 0 where
  pub key : Text
  pub val : Text

pub record KlogHandler : Type 0 where
  pub attrs : List Attr
  pub groups : List Text

unfoldable enabled : KlogHandler → ℤ → Bool
enabled h level = true

-- The levels of rclone's own log, as far as the driver names them.
data RcloneLogLevel : Type 0 where
  log_level_info : RcloneLogLevel

record LoggingSetup : Type 0 where
  default_handler : KlogHandler
  log_level : RcloneLogLevel

abbrev init_rclone_logging : LoggingSetup
init_rclone_logging = record {
  default_handler = record { attrs = []; groups = [] };
  log_level = log_level_info;
}

unfoldable pub write_attr : Attr → Text
write_attr a = a.key ++ (codes "=" ++ a.val)

-- The loop over the attributes; the first argument is false when a comma is due.
unfoldable pub write_attrs : Bool → List Attr → Text
unfolding write_attr
write_attrs first [] = []
write_attrs true (a ∷ attrs) = write_attr a ++ write_attrs false attrs
write_attrs false (a ∷ attrs) = codes ", " ++ (write_attr a ++ write_attrs false attrs)

abbrev no_attrs : List Attr → Bool
no_attrs [] = true
no_attrs (a ∷ attrs) = false

-- The message that `Handle` hands to klog, from the record's message and attributes.
unfoldable pub handle_message : KlogHandler → Text → List Attr → Text
unfolding write_attrs
handle_message h message attrs =
    if no_attrs h.attrs && no_attrs attrs
    then message
    else message
      ++ (codes " {"
          ++ (write_attrs true h.attrs ++ (write_attrs (no_attrs h.attrs) attrs ++ codes "}")))

pub data KlogCall : Type 0 where
  error_depth warning_depth info_v2 info_v4 : KlogCall

abbrev ge : ℤ → ℕ → Bool
ge (pos n) m = leb m n
ge (negsuc n) m = false

-- `slog.LevelError` is 8, `LevelWarn` 4, `LevelInfo` 0.
unfoldable pub klog_call : ℤ → KlogCall
klog_call level =
    if ge level 8
    then error_depth
    else if ge level 4
    then warning_depth
    else if ge level 0
    then info_v2
    else info_v4

unfoldable pub with_attrs : KlogHandler → List Attr → KlogHandler
with_attrs h attrs = record h { attrs = h.attrs ++ attrs }

unfoldable pub with_group : KlogHandler → Text → KlogHandler
with_group h name = record h { groups = h.groups ++ name ∷ [] }

write_attrs_later :
    (l m : List Attr) → write_attrs false (l ++ m) ≡ write_attrs false l ++ write_attrs false m
unfolding write_attrs
write_attrs_later [] m = refl
write_attrs_later (a ∷ l) m = simp (write_attrs_later l m, append_assoc)

-- Attributes given to the handler by `WithAttrs` are logged as if each record carried them before its own.
pub handle_message-with_attrs :
    (h : KlogHandler) (given attrs : List Attr) (message : Text)
    → handle_message (with_attrs h given) message attrs ≡ handle_message h message (given ++ attrs)
unfolding handle_message with_attrs write_attrs
handle_message-with_attrs h given attrs message = go h.attrs given
  where
    go :
        (l m : List Attr)
        → (if no_attrs (l ++ m) && no_attrs attrs
            then message
            else message
              ++ (codes " {"
                  ++ (write_attrs true (l ++ m)
                      ++ (write_attrs (no_attrs (l ++ m)) attrs ++ codes "}"))))
          ≡ (if no_attrs l && no_attrs (m ++ attrs)
              then message
              else message
                ++ (codes " {"
                    ++ (write_attrs true l
                        ++ (write_attrs (no_attrs l) (m ++ attrs) ++ codes "}"))))
    go [] [] = refl
    go [] (a ∷ m) = simp (write_attrs_later m attrs, append_assoc)
    go (a ∷ l) m = simp (write_attrs_later l m, write_attrs_later m attrs, append_assoc)
