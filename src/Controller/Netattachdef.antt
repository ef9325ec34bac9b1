-- ===== src/Controller/Netattachdef.antt =====
-- controller/netattachdef.go: a network attachment definition in each namespace.
use network_controller.Common.{◌∷◌, ◌++◌}
use network_controller.Go.Text.{Bytes, codes}
use network_controller.Go.Exec.{Exec, pure, ignoring}
use network_controller.Types.{Attachment, Object, a_subnet, a_pod, a_namespace, another}
use network_controller.Cluster.{Cluster}
use network_controller.Controller.Service.{net_attach_def_name}

-- The configuration of the plugin, as it stands in the source.
config_text : Bytes
config_text =
    codes "{\n"
    ++ (codes "\t\t\t\t\t\"cniVersion\": \"0.3.0\",\n"
        ++ (codes "\t\t\t\t\t\"type\": \"static-macvlan-cni\",\n"
            ++ (codes "\t\t\t\t\t\"master\": \"\",\n"
                ++ (codes "\t\t\t\t\t\"ipam\": {\n"
                    ++ (codes "\t\t\t\t\t  \"type\": \"static-ipam\",\n"
                        ++ (codes "\t\t\t\t\t  \"addresses\": [\n"
                            ++ (codes "\t\t\t\t\t\t  {\n"
                                ++ (codes "\t\t\t\t\t\t\t\"address\": \"{address}\",\n"
                                    ++ (codes "\t\t\t\t\t\t\t\"gateway\": \"{gateway}\"\n"
                                        ++ (codes "\t\t\t\t\t\t  }\n"
                                            ++ (codes "\t\t\t\t\t\t]\n"
                                                ++ (codes "\t\t\t\t\t}\n"
                                                    ++ (codes "\t\t\t\t  }")))))))))))))

unfoldable pub make_network_attachment_definition : Bytes → Bytes → Attachment
unfolding config_text
make_network_attachment_definition name namespace = record {
  kind = codes "NetworkAttachmentDefinition";
  api_version = codes "k8s.cni.cncf.io" ++ b'/' ∷ codes "v1";
  name = name;
  namespace = namespace;
  config = config_text;
}

module _ (c : Cluster) where
  open c use {World, create_attachment, delete_attachment}

  -- Both handlers only log the errors of their calls.
  unfoldable pub on_namespace_add : Object → Exec World (Unit {0})
  on_namespace_add (a_namespace ns) = ignoring tt (
      create_attachment ns.meta.name
        (make_network_attachment_definition net_attach_def_name ns.meta.name))
  on_namespace_add (a_pod pod) = pure tt
  on_namespace_add (a_subnet subnet) = pure tt
  on_namespace_add another = pure tt

  unfoldable pub on_namespace_delete : Object → Exec World (Unit {0})
  on_namespace_delete (a_namespace ns) =
      ignoring tt (delete_attachment ns.meta.name net_attach_def_name)
  on_namespace_delete (a_pod pod) = pure tt
  on_namespace_delete (a_subnet subnet) = pure tt
  on_namespace_delete another = pure tt
