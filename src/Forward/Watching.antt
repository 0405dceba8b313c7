-- ===== src/Forward/Watching.antt =====
-- kubefwd/kubefwd.go: what `watchServiceEvents` gives to the informer to list and to watch, and where
-- log lines go. The options that the informer passes are its own.
use k8s_explore.Base.{String, Bool, true, ◌||◌, if◌then◌else◌}
use k8s_explore.Frp.Hosts.{contains}

-- The fields of `metav1.ListOptions` that are written here, and the others as they are.
pub record ListOptions (Rest : Type 0) : Type 0 where
  pub field_selector : String
  pub label_selector : String
  pub watch : Bool
  pub rest : Rest

-- A call of `CoreV1().Services(namespace)`.
pub data ServicesCall (Rest : Type 0) : Type 0 where
  list_services : String → ListOptions Rest → ServicesCall Rest
  watch_services : String → ListOptions Rest → ServicesCall Rest

module _ {Rest Given : Type 0} (namespace : String) (opts : ListOptions Given) where
  -- `optionsModifier`
  abbrev pub options_modifier : ListOptions Rest → ListOptions Rest
  options_modifier options = record options {
    field_selector = opts.field_selector;
    label_selector = opts.label_selector;
  }

  -- `ListFunc` and `WatchFunc`
  abbrev pub list_func : ListOptions Rest → ServicesCall Rest
  list_func options = list_services namespace (options_modifier options)

  abbrev pub watch_func : ListOptions Rest → ServicesCall Rest
  watch_func options = watch_services namespace (options_modifier (record options { watch = true }))

-- The standard streams of the process.
pub data Output : Type 0 where
  stderr stdout : Output

-- `LogOutputSplitter.Write`: the stream that gets the line.
abbrev pub write_log : String → Output
write_log line =
    if contains line "level=error" || contains line "level=warn" then stderr else stdout
