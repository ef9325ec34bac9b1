-- ===== src/Lib.antt =====
-- Verification of the network controller: the program that watches pods, namespaces and subnets of
-- a Kubernetes cluster and gives each pod that asks for one an address on a macvlan network.
--
-- The program's parts, and the files that model them:
--
-- - ipcalc/ipcalc.go: arithmetic on addresses and sets of addresses. Ipcalc.antt holds one function
--   per Go function, with the name in snake case; its child modules hold the proofs (Incip, Sets,
--   Intersection, Hosts, Cidr, HostList, Range).
-- - types/apis/macvlan/v1/types.go: the objects of the API. Types.antt, with the fields of the other
--   Kubernetes objects that the program reads.
-- - controller/ipalloc.go and controller/errlog.go: the choice of an address in the modes auto,
--   single and multiple. Controller/Hosts.antt holds the functions that call nothing,
--   Controller/Ipalloc.antt the others, Controller/Allocation the proofs.
-- - controller/macvlanip.go: Controller/Macvlanip.antt. `doAddMacvlanIP` is split where the source
--   has a comment: allocate_step, finish_step with update_labels, create_step.
-- - controller/service.go, controller/macvlansubnet.go, controller/netattachdef.go,
--   controller/purge.go and controller/controller.go: Controller/Service.antt, Subnet.antt,
--   Netattachdef.antt, Purge.antt, Queue.antt and Setup.antt. Controller/Effects holds the proofs about what
--   these do to the cluster; Controller/Uniqueness is about the addresses of a
--   subnet over whole runs, with the server that it relies on as a record (Server.antt, and Rest.antt for
--   one behind the generated clients). Controller/Wiring.antt fills the cluster's operations on macvlanips
--   and subnets in with the generated clients and the generated lister.
-- - pkg/generated/clientset/versioned/typed/macvlan/v1: Client.antt, each method as the request that
--   it builds; Client/Scope.antt holds the proof.
-- - pkg/generated/clientset/versioned/fake and typed/macvlan/v1/fake: Fake.antt, each method as the action
--   that it hands to package testing of client-go, with the proof in Fake/Lists.antt; Fake/Simple.antt
--   is the clientset for tests.
-- - types/apis/macvlan/v1/register.go and pkg/generated/clientset/versioned/scheme: Scheme.antt.
-- - pkg/generated/informers/externalversions: Informers.antt (factory.go, generic.go),
--   Informers/Typed.antt and Informers/Access.antt (macvlan/v1); the other child modules hold the proofs over histories of calls.
-- - pkg/generated/listers: Lister.antt, with the proof in Lister/Lookup.antt.
-- - types/apis/macvlan/v1/zz_generated.deepcopy.go: DeepCopy.antt, over a memory of cells. Copies,
--   Cells and Structs say what a copy is and how copies are put together, Readings what each type
--   shows, Isolated holds the result.
-- - pkg/generated/clientset/versioned/clientset.go and typed/macvlan/v1/macvlan_client.go:
--   Clientset.antt.
-- - pkg/signals and main.go: Program.antt and Program/Main.antt, with the proofs in Program/Signals.antt
--   and Program/Started.antt.
-- - The language and its standard library, as far as the program uses them: Go and its child modules
--   (byte strings and their texts, results, maps, sort, SHA-1, package net).
--
-- How the parts interact: main builds the clients and the controller, which registers its handlers,
-- starts the informers and runs the controller with one worker (`main`, `serve`). An event of a pod puts its key on the work queue (`enqueue_pod`); a worker
-- takes the key (`process_next_work_item`), looks the pod up (`sync_handler`), allocates an address
-- in the subnet that the pod names, writes the pod's labels, creates the macvlanip and a second
-- service (`do_add_macvlan_ip`, `sync_service`). A subnet that is added gets labels and a gateway, a
-- namespace that is added a network attachment, and a timer deletes macvlanips whose pod is gone.
--
-- The API server, the informers' caches, the event recorder and the work queue are not code of the
-- repository. They are one record of operations on a world of any type, Cluster.antt, which every
-- function that calls them takes as a section parameter; a call returns a result and a world. A
-- theorem that relies on an answer of a call has that answer as a hypothesis, and Examples/Store.antt
-- is a cluster kept in lists in which the hypotheses hold.
--
-- A call ends with a value, with an error, by a panic, or never (Go/Result.antt); a panic keeps the
-- world that the calls before it made. Loops over addresses run on fuel: `max_rounds` is 2 ^ 128 + 1,
-- one more than there are addresses of 16 bytes, so that a loop which visits no address twice ends
-- before the fuel does; `hangs` stands for a loop that is still running then. The workers take their
-- fuel as an argument. A Go map is an association list; where the program ranges over one, the model
-- takes the order of insertion, and the program sorts what it gets.
--
-- Not modelled: log messages; the registration of flags (main.go); the scheme, the tracker of objects
-- and the other parts of vendored packages. Of a service's specification the model
-- reads the ports alone and carries the rest along.
pub mod Common
pub mod Fake
pub mod Scheme
pub mod Go
pub mod Ipcalc
pub mod Types
pub mod Cluster
pub mod Client
pub mod Informers
pub mod Program
pub mod DeepCopy
pub mod Lister
pub mod Clientset
pub mod Controller
pub mod Examples
