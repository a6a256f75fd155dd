-- ===== src/Consts.antt =====
-- pkg/consts/consts.go
use k8s_device_plugin.Prelude.{◌++◌}
use k8s_device_plugin.Prelude.Texts.{Text, str}

abbrev pub cdi_vendor : Text
cdi_vendor = str "rebellions.ai"

abbrev pub cdi_class : Text
cdi_class = str "npu"

abbrev pub cdi_kind : Text
cdi_kind = cdi_vendor ++ str "/" ++ cdi_class

abbrev pub generic_resource_name : Text
generic_resource_name = cdi_kind

abbrev pub base_cdi_device : Text
base_cdi_device = str "runtime"

abbrev pub rds_cdi_class : Text
rds_cdi_class = str "rds"

abbrev pub rds_cdi_all_device : Text
rds_cdi_all_device = str "all"

abbrev pub vf_resource_name_prefix : Text
vf_resource_name_prefix = generic_resource_name ++ str "-vf"
