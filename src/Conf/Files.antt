-- ===== src/Conf/Files.antt =====
-- BuildControllerConfig and BuildControllerConfigExternal of
-- internal/builder/controllerbuilder/controller_config.go: the data of the ConfigMap of a Controller.
use gce_hackathon.Prelude.{
  Bool, true, false, not, Option, none, some, List, [], ◌∷◌, ◌++◌, map, Bytes, codes, lookup,
  insert, if◌then◌else◌,
}
use gce_hackathon.Objects.{NodeSet}
use gce_hackathon.Api.{Result, ok, err, M, ◌>>=◌, return, throw, try_run}
use gce_hackathon.Conf.Snippets.{build_cgroup_conf, build_gres_conf, is_cgroup_enabled}
use gce_hackathon.Conf.Controller.{
  Controller, Accounting, Scripts, build_slurm_conf, build_slurm_conf_minimal,
}

-- The references of a Controller, by name.
pub record Refs : Type 0 where
  pub accounting : Option Bytes
  pub config_files : List Bytes
  pub prologs : List Bytes
  pub epilogs : List Bytes
  pub slurmctld_prologs : List Bytes
  pub slurmctld_epilogs : List Bytes

-- The data of a ConfigMap, by file names.
abbrev pub Files : Type 0
Files = List (Bytes × Bytes)

-- What the files say: whether cgroups are enabled, and which files there are.
pub record Found : Type 0 where
  pub cgroup_enabled : Bool
  pub has_cgroup_conf : Bool
  pub has_gres_conf : Bool

abbrev pub look_cgroup : Option Bytes → Found → Found
look_cgroup none found = found
look_cgroup (some contents) found = record found {
  has_cgroup_conf = true;
  cgroup_enabled = is_cgroup_enabled contents;
}

abbrev pub look_gres : Option Bytes → Found → Found
look_gres none found = found
look_gres (some contents) found = record found { has_gres_conf = true }

-- The loop over the ConfigMaps; the last cgroup.conf counts.
unfoldable pub look_at : List Files → Found → Found
unfolding is_cgroup_enabled
look_at [] found = found
look_at (files ∷ more) found = look_at more (
    look_gres (lookup (codes "gres.conf") files)
      (look_cgroup (lookup (codes "cgroup.conf") files) found))

abbrev pub nothing_found : Found
nothing_found = record { cgroup_enabled = true; has_cgroup_conf = false; has_gres_conf = false }

abbrev pub add_unless : Bool → Bytes → Bytes → Files → Files
add_unless present name contents files = if not present then insert name contents files else files

-- `get_config_map` reads a ConfigMap in the namespace of the Controller, `get_accounting` and
-- `get_node_sets` are of the resolver of references, and `sort_strings` and `sort_by_name` sort.
module _ (get_config_map : Bytes → M Files) (get_accounting : Bytes → M Accounting)
    (get_node_sets : M (List NodeSet)) (sort_strings : List Bytes → List Bytes)
    (sort_by_name : List NodeSet → List NodeSet) where
  unfoldable pub get_all : List Bytes → M (List Files)
  get_all [] = return []
  get_all (name ∷ names) =
      get_config_map name >>= λ files. get_all names >>= λ more. return (files ∷ more)

  -- The names of the scripts, sorted in each ConfigMap.
  unfoldable pub script_names : List Bytes → M (List Bytes)
  script_names [] = return []
  script_names (name ∷ names) = get_config_map name >>= λ files.
      script_names names >>= λ more. return (sort_strings (map (λ e. e.0) files) ++ more)

  abbrev pub or_none : Result Accounting → M (Option Accounting)
  or_none (ok a) = return (some a)
  or_none (err e) = if e.not_found then return none else throw e

  -- An Accounting that is missing counts as none.
  unfoldable pub find_accounting : Option Bytes → M (Option Accounting)
  find_accounting none = return none
  find_accounting (some name) = try_run (get_accounting name) >>= or_none

  -- BuildControllerConfig.
  unfoldable pub build_controller_config : Controller → Refs → M Files
  unfolding get_all script_names find_accounting look_at build_slurm_conf build_cgroup_conf
      build_gres_conf
  build_controller_config c refs = do
    accounting ← find_accounting refs.accounting
    node_sets ← get_node_sets
    config_files ← get_all refs.config_files
    prologs ← script_names refs.prologs
    epilogs ← script_names refs.epilogs
    slurmctld_prologs ← script_names refs.slurmctld_prologs
    slurmctld_epilogs ← script_names refs.slurmctld_epilogs
    let found = look_at config_files nothing_found
    let scripts : Scripts = record {
      prologs = prologs;
      epilogs = epilogs;
      slurmctld_prologs = slurmctld_prologs;
      slurmctld_epilogs = slurmctld_epilogs;
    }
    let conf =
        build_slurm_conf sort_strings sort_by_name c accounting node_sets scripts
          found.cgroup_enabled
    return (
        add_unless found.has_gres_conf (codes "gres.conf") build_gres_conf (
          add_unless found.has_cgroup_conf (codes "cgroup.conf") build_cgroup_conf
            ((codes "slurm.conf", conf) ∷ [])))

  -- BuildControllerConfigExternal.
  unfoldable pub build_controller_config_external : Controller → Option Bytes → M Files
  unfolding find_accounting build_slurm_conf_minimal
  build_controller_config_external c ref = do
    accounting ← find_accounting ref
    return ((codes "slurm.conf", build_slurm_conf_minimal c accounting) ∷ [])
