-- ===== src/Tracing.antt =====
-- cmd/rbln-device-plugin/tracing.go: how tracing is set up. The parser of URLs, the exporter and the
-- resource of OpenTelemetry are the library's: whether they can be made is an argument.
use k8s_device_plugin.Prelude.{List, [], ◌∷◌, ◌++◌, Option, none, some, if◌then◌else◌}
use k8s_device_plugin.Prelude.Texts.{Text, str, text_beq}
use k8s_device_plugin.Go.Result.{Result, ok, err}
use k8s_device_plugin.Go.Strings.{contains}

-- The options of the OTLP exporter.
pub data ExporterOption : Type 0 where
  endpoint_url endpoint : Text → ExporterOption
  insecure : ExporterOption

-- A pair of a key and a value.
abbrev pub Attribute : Type 0
Attribute = Text × Text

pub record Library : Type 0 where
  pub parse_url : Text → Result Text (Unit {0})
  pub new_exporter : List ExporterOption → Result Text (Unit {0})
  -- `resource.Merge` with the default resource
  pub merge_resource : List Attribute → Result Text (Unit {0})

pub data TracingError : Type 0 where
  bad_url no_exporter no_resource : Text → TracingError

-- The provider that is installed: what it exports to, and what it says of the process.
pub record Provider : Type 0 where
  pub options : List ExporterOption
  pub attributes : List Attribute

unfoldable pub exporter_of :
    Library → List ExporterOption → Result TracingError (List ExporterOption)
exporter_of library options = elim (library.new_exporter options) [
  | err failed ↦ err (no_exporter failed)
  | ok u ↦ ok options
]

-- A URL is parsed first, since the library does not report one that it cannot parse.
unfoldable pub new_otlp_exporter : Library → Text → Result TracingError (List ExporterOption)
unfolding contains exporter_of
new_otlp_exporter library e =
    if contains e (str "://")
    then elim (library.parse_url e) [
      | err failed ↦ err (bad_url failed)
      | ok u ↦ exporter_of library (endpoint_url e ∷ [])
    ]
    else exporter_of library (endpoint e ∷ insecure ∷ [])

abbrev node_attribute : Text → List Attribute
node_attribute node = if text_beq node [] then [] else (str "k8s.node.name", node) ∷ []

-- For the value of the variable NODE_NAME, which is empty where it is not set.
unfoldable pub new_tracing_resource :
    Library → (service_version node : Text) → Result TracingError (List Attribute)
new_tracing_resource library service_version node =
    let attrs =
      ((str "service.name", str "rbln-device-plugin")
        ∷ (str "service.version", service_version)
        ∷ [])
      ++ node_attribute node in
    elim (library.merge_resource attrs) [ err e ↦ err (no_resource e) | ok u ↦ ok attrs ]

-- None: tracing is disabled.
unfoldable pub init_tracing :
    Library → (endpoint service_version node : Text) → Result TracingError (Option Provider)
unfolding new_otlp_exporter new_tracing_resource
init_tracing library e service_version node =
    let exporter = new_otlp_exporter library e in
    let res = new_tracing_resource library service_version node in
    if text_beq e [] then ok none else elim exporter [
      | err failed ↦ err failed
      | ok options ↦ elim res [
        | err failed ↦ err failed
        | ok attributes ↦ ok (some (record { options = options; attributes = attributes }))
      ]
    ]
