-- ===== src/Conf/Snippets.antt =====
-- The parts of slurm.conf of
-- internal/builder/controllerbuilder/controller_config.go: scripts, NodeSets and partitions, and the
-- files cgroup.conf and gres.conf.
use gce_hackathon.Prelude.{
  ◌==◌, leb, ◌+◌, ◌&&◌, Bool, true, false, not, List, [], ◌∷◌, ◌++◌, map, any, Bytes, codes,
  has_prefix, if◌then◌else◌,
}
use gce_hackathon.Objects.{NodeSet}
use gce_hackathon.Names.{is_empty}
use gce_hackathon.Conf.{Property, property, raw, new_builder, with_final_newline, join, build}
use gce_hackathon.Conf.ReadBack.{lines_of}

-- A configuration of these properties.
abbrev pub built : Bool → List Property → Bytes
built newline ps = build (with_final_newline (record new_builder { properties = ps }) newline)

-- path.Join with SlurmEtcDir; names of scripts have no slash.
abbrev pub in_etc : Bytes → Bytes
in_etc name = codes "/etc/slurm/" ++ name

-- `sort_strings` is sort.Strings.
module _ (sort_strings : List Bytes → List Bytes) where
  -- buildPrologEpilogSlurmctldConf.
  unfoldable pub build_prolog_epilog_slurmctld_conf : List Bytes → List Bytes → Bytes
  unfolding build with_final_newline
  build_prolog_epilog_slurmctld_conf prologs epilogs = built false (
      map (λ name. property (codes "PrologSlurmctld") (in_etc name)) (sort_strings prologs)
      ++ map (λ name. property (codes "EpilogSlurmctld") (in_etc name)) (sort_strings epilogs))

  -- buildPrologEpilogConf.
  unfoldable pub build_prolog_epilog_conf : List Bytes → List Bytes → Bytes
  unfolding build with_final_newline
  build_prolog_epilog_conf prologs epilogs = built false (
      map (property (codes "Prolog")) (sort_strings prologs)
      ++ map (property (codes "Epilog")) (sort_strings epilogs))

-- strings.Trim of dashes.
abbrev pub trim_left : Bytes → Bytes
trim_left [] = []
trim_left (c ∷ s) = let rest = trim_left s in if c == b'-' then rest else c ∷ s

abbrev pub trim_right : Bytes → Bytes
trim_right [] = []
trim_right (c ∷ s) = let rest = trim_right s in if c == b'-' && is_empty rest then [] else c ∷ rest

abbrev pub conf_name : NodeSet → Bytes
conf_name s =
    if not (is_empty s.template_hostname)
    then trim_right (trim_left s.template_hostname)
    else s.name

-- The lines for a NodeSet and for its partition.
unfoldable pub node_set_lines : NodeSet → List Property
unfolding join
node_set_lines s =
    let name = conf_name s in
    let node_set_line =
      raw (join ((codes "NodeSet=" ++ name) ∷ (codes "Feature=" ++ name) ∷ []) (codes " ")) in
    let partition_line = raw (
      join ((codes "PartitionName=" ++ name) ∷ (codes "Nodes=" ++ name) ∷ s.partition_config ∷ [])
        (codes " ")) in
    if not s.partition_enabled then node_set_line ∷ [] else node_set_line ∷ partition_line ∷ []

unfoldable pub all_node_set_lines : List NodeSet → List Property
unfolding node_set_lines
all_node_set_lines [] = []
all_node_set_lines (s ∷ ss) = node_set_lines s ++ all_node_set_lines ss

-- buildNodeSetConf; `sort_by_name` is sort.Slice by the names of the NodeSets.
unfoldable pub build_node_set_conf : (List NodeSet → List NodeSet) → List NodeSet → Bytes
unfolding build with_final_newline all_node_set_lines
build_node_set_conf sort_by_name node_sets =
    built false (all_node_set_lines (sort_by_name node_sets))

-- buildCgroupConf and buildGresConf.
unfoldable pub build_cgroup_conf : Bytes
unfolding build with_final_newline
build_cgroup_conf = built true (
    property (codes "CgroupPlugin") (codes "cgroup/v2")
    ∷ property (codes "IgnoreSystemd") (codes "yes")
    ∷ [])

unfoldable pub build_gres_conf : Bytes
unfolding build with_final_newline
build_gres_conf = built true (property (codes "AutoDetect") (codes "nvidia") ∷ [])

-- strings.ToLower, of ASCII.
abbrev pub to_lower : Bytes → Bytes
to_lower s = map (λ c. if leb b'A' c && leb c b'Z' then c + 32 else c) s

-- isCgroupEnabled: no line starts with the text, in capitals or not.
unfoldable pub is_cgroup_enabled : Bytes → Bool
unfolding lines_of has_prefix
is_cgroup_enabled conf =
    not (any (λ line. has_prefix (to_lower line) (codes "cgroupplugin=disabled")) (lines_of conf))
