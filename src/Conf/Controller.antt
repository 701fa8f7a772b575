-- ===== src/Conf/Controller.antt =====
-- slurm.conf: buildSlurmConf and buildSlurmConfMinimal of
-- internal/builder/controllerbuilder/controller_config.go, with the names of
-- api/v1beta1/controller_keys.go and accounting_keys.go.
use gce_hackathon.Prelude.{
  Bool, true, not, Option, none, some, List, [], ◌∷◌, ◌++◌, Bytes, codes, if◌then◌else◌,
}
use gce_hackathon.Objects.{NodeSet}
use gce_hackathon.Names.{is_empty}
use gce_hackathon.Conf.{Property, property, raw, join, build}
use gce_hackathon.Conf.Snippets.{
  built, build_prolog_epilog_slurmctld_conf, build_prolog_epilog_conf, build_node_set_conf,
}
use gce_hackathon.Conf.Merge.{build_merged_config}

-- A Controller of Slurm, with the host where it is external.
pub record Controller : Type 0 where
  pub name : Bytes
  pub namespace : Bytes
  pub cluster_name_spec : Bytes
  pub external_host : Option Bytes
  pub has_jwks : Bool
  pub metrics_enabled : Bool
  pub extra_conf : Bytes

-- An Accounting, by the name of its Service, and ServiceKey of it.
pub record Accounting : Type 0 where
  pub name : Bytes

unfoldable pub accounting_service_name : Accounting → Bytes
accounting_service_name a = a.name ++ codes "-accounting"

-- ClusterName, Key, PrimaryName and ServiceFQDNShort.
unfoldable pub cluster_name : Controller → Bytes
cluster_name c =
    if not (is_empty c.cluster_name_spec)
    then c.cluster_name_spec
    else c.namespace ++ (b'_' ∷ c.name)

unfoldable pub key_name : Controller → Bytes
key_name c = c.name ++ codes "-controller"

abbrev pub host_or : Bytes → Option Bytes → Bytes
host_or name none = name
host_or name (some host) = host

unfoldable pub primary_name : Controller → Bytes
unfolding key_name
primary_name c = host_or (key_name c ++ codes "-0") c.external_host

unfoldable pub service_fqdn_short : Controller → Bytes
unfolding key_name
service_fqdn_short c = key_name c ++ (b'.' ∷ c.namespace)

-- clusterSpoolDir; the name of a cluster has no slash.
unfoldable pub cluster_spool_dir : Bytes → Bytes
cluster_spool_dir name = codes "/var/spool/slurmctld/" ++ name

abbrev pub title : Bytes → List Property
title text = raw (codes "#") ∷ raw (codes "### " ++ (text ++ codes " ###")) ∷ []

-- A part with a title, if there is a text.
unfoldable pub section : Bytes → Bytes → List Property
section text snippet = if not (is_empty snippet) then title text ++ (raw snippet ∷ []) else []

unfoldable pub general : Controller → Bytes → List Property
unfolding cluster_name
general c host =
    title (codes "GENERAL")
    ++ (property (codes "ClusterName") (cluster_name c)
        ∷ property (codes "SlurmUser") (codes "slurm")
        ∷ property (codes "SlurmctldHost") host
        ∷ property (codes "SlurmctldPort") (codes "6817")
        ∷ [])

abbrev pub worker_part : Controller → List Property
worker_part c =
    property (codes "StateSaveLocation") (cluster_spool_dir (cluster_name c))
    ∷ property (codes "SlurmdUser") (codes "root")
    ∷ property (codes "SlurmdPort") (codes "6818")
    ∷ property (codes "SlurmdSpoolDir") (codes "/var/spool/slurmd")
    ∷ property (codes "ReturnToService") (codes "2")
    ∷ property (codes "MaxNodeCount") (codes "1024")
    ∷ property (codes "GresTypes") (codes "gpu")
    ∷ []

abbrev pub log_part : List Property
log_part =
    title (codes "LOGGING")
    ++ (property (codes "SlurmctldLogFile") (codes "/var/log/slurm/slurmctld.log")
        ∷ property (codes "SlurmSchedLogFile") (codes "/var/log/slurm/slurmctld.log")
        ∷ property (codes "SlurmdLogFile") (codes "/var/log/slurm/slurmd.log")
        ∷ property (codes "LogTimeFormat") (codes "thread_id")
        ∷ [])

abbrev pub auth_part : List Property
auth_part =
    title (codes "PLUGINS & PARAMETERS")
    ++ (property (codes "AuthType") (codes "auth/slurm")
        ∷ property (codes "CredType") (codes "cred/slurm")
        ∷ property (codes "AuthAltTypes") (codes "auth/jwt")
        ∷ [])

-- The options that the operator sets itself.
abbrev pub slurmctld_parameters : Bool → List Bytes
slurmctld_parameters cgroup =
    codes "enable_configless"
    ∷ codes "reconfig_on_restart"
    ∷ (if cgroup then codes "enable_stepmgr" ∷ [] else [])

abbrev pub auth_alt_parameters : Controller → List Bytes
auth_alt_parameters c =
    codes "jwt_key=/etc/slurm/jwt.key"
    ∷ (if c.has_jwks then codes "jwks=/etc/slurm/jwks.json" ∷ [] else [])

abbrev pub merge_config : Controller → Bool → List (Bytes × List Bytes)
merge_config c cgroup =
    (codes "SlurmctldParameters", slurmctld_parameters cgroup)
    ∷ (codes "AuthInfo", codes "use_client_ids" ∷ [])
    ∷ (codes "AuthAltParameters", auth_alt_parameters c)
    ∷ []

abbrev pub plugin_part : Controller → Bool → List Property
plugin_part c cgroup =
    property (codes "AuthAltParameters") (join (auth_alt_parameters c) (codes ","))
    ∷ property (codes "AuthInfo") (codes "use_client_ids")
    ∷ property (codes "SlurmctldParameters") (join (slurmctld_parameters cgroup) (codes ","))
    ∷ (if cgroup
        then property (codes "ProctrackType") (codes "proctrack/cgroup")
          ∷ property (codes "PrologFlags") (codes "Contain")
          ∷ property (codes "TaskPlugin") (codes "task/affinity,task/cgroup")
          ∷ []
        else property (codes "ProctrackType") (codes "proctrack/linuxproc")
          ∷ property (codes "TaskPlugin") (codes "task/affinity")
          ∷ [])

abbrev pub metrics_part : Controller → List Property
metrics_part c =
    if c.metrics_enabled
    then property (codes "MetricsType") (codes "metrics/openmetrics") ∷ []
    else []

abbrev pub storage_part : Accounting → List Property
storage_part a =
    property (codes "AccountingStorageType") (codes "accounting_storage/slurmdbd")
    ∷ property (codes "AccountingStorageHost") (accounting_service_name a)
    ∷ property (codes "AccountingStoragePort") (codes "6819")
    ∷ []

abbrev pub gather_type : Bool → Bytes
gather_type cgroup = if cgroup then codes "jobacct_gather/cgroup" else codes "jobacct_gather/linux"

abbrev pub accounting_part : Option Accounting → Bool → List Property
accounting_part none cgroup =
    property (codes "AccountingStorageType") (codes "accounting_storage/none")
    ∷ property (codes "JobAcctGatherType") (codes "jobacct_gather/none")
    ∷ []
accounting_part (some a) cgroup =
    storage_part a
    ++ (property (codes "AccountingStorageTRES") (codes "gres/gpu")
        ∷ property (codes "JobAcctGatherType") (gather_type cgroup)
        ∷ [])

-- The file names of the scripts for jobs and for slurmctld.
pub record Scripts : Type 0 where
  pub prologs : List Bytes
  pub epilogs : List Bytes
  pub slurmctld_prologs : List Bytes
  pub slurmctld_epilogs : List Bytes

module _ (sort_strings : List Bytes → List Bytes) (sort_by_name : List NodeSet → List NodeSet) where
  -- The properties of buildSlurmConf, in order.
  unfoldable pub slurm_conf_properties :
      Controller → Option Accounting → List NodeSet → Scripts → Bool → List Property
  unfolding general primary_name service_fqdn_short accounting_service_name cluster_spool_dir
      section join build_prolog_epilog_slurmctld_conf build_prolog_epilog_conf build_node_set_conf
      build_merged_config
  slurm_conf_properties c accounting node_sets scripts cgroup =
      general c (primary_name c ++ (b'(' ∷ (service_fqdn_short c ++ codes ")")))
      ++ (worker_part c
          ++ (log_part
              ++ (auth_part
                  ++ (plugin_part c cgroup
                      ++ (metrics_part c
                          ++ (title (codes "ACCOUNTING")
                              ++ (accounting_part accounting cgroup
                                  ++ (section (codes "SLURMCTLD PROLOG & EPILOG") (
                                        build_prolog_epilog_slurmctld_conf sort_strings
                                          scripts.slurmctld_prologs scripts.slurmctld_epilogs)
                                      ++ (section (codes "PROLOG & EPILOG") (
                                            build_prolog_epilog_conf sort_strings scripts.prologs
                                              scripts.epilogs)
                                          ++ (section (codes "NODESET & PARTITION")
                                                (build_node_set_conf sort_by_name node_sets)
                                              ++ (section (codes "EXTRA CONFIG") c.extra_conf
                                                  ++ section (codes "MERGED CONFIG") (
                                                      build_merged_config sort_strings
                                                        (merge_config c cgroup)
                                                        c.extra_conf))))))))))))

  -- buildSlurmConf.
  unfoldable pub build_slurm_conf :
      Controller → Option Accounting → List NodeSet → Scripts → Bool → Bytes
  unfolding slurm_conf_properties build
  build_slurm_conf c accounting node_sets scripts cgroup =
      built true (slurm_conf_properties c accounting node_sets scripts cgroup)

abbrev pub minimal_accounting : Option Accounting → List Property
minimal_accounting none =
    property (codes "AccountingStorageType") (codes "accounting_storage/none") ∷ []
minimal_accounting (some a) = storage_part a

-- buildSlurmConfMinimal.
unfoldable pub build_slurm_conf_minimal : Controller → Option Accounting → Bytes
unfolding general primary_name accounting_service_name build
build_slurm_conf_minimal c accounting = built true (
    general c (primary_name c)
    ++ (auth_part ++ (title (codes "ACCOUNTING") ++ minimal_accounting accounting)))
