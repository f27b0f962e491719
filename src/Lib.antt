-- ===== src/Lib.antt =====
-- A Docker network plugin for flannel. On every node of a swarm it gives each Docker network a
-- subnet, each container and each service an address of it, answers DNS queries for them and
-- balances the load of services. The nodes share their claims through etcd. This library models the
-- allocation of subnets and addresses, the stores through which the nodes know of one another, the
-- resolver of names, the load balancer of a network, and the maps and service states that the other
-- parts stand on.
--
-- The parts and their files (paths from the repository's root):
--
-- plugin/pkg/ipam/pool_etcd.go. Ipam/Lease: a claim on an address, its keys, and its release, each
--   transaction of etcd one call of an interface (`allocateIPForContainer` is
--   `allocate_ip_for_container`, and so on). Ipam/Lease/Read: `getAllocationsByPrefix` and its
--   callers. Ipam/Lease/Keys is about the keys of one address; Claim, Containers, Release,
--   Read/RoundTrip and Read/Single have the theorems.
-- plugin/pkg/ipam/util.go. Ipam/Subnet: the addresses of a subnet (`ipsInSubnet`), with Range for the
--   theorems. Ipam/Selection: which free address is tried next (`getNextAvailableIP`); Order and Next
--   have the theorems.
-- plugin/pkg/ipam/pool.go. Ipam/Pool: the addresses of one network on one node; `State` is the pool
--   with the cluster, a method is a function on states. Ipam/Pool/Watch: the constructor, and the
--   watch on the addresses, for one event after the other. Partition, Stuck, Grant and Watch/Turns
--   have the theorems.
-- plugin/pkg/ipam/address_space.go and address_space_etcd.go. Ipam/Space: the subnets of all
--   networks; Reserve and Events have the theorems. Pools use Lease and Selection; the driver gets
--   a subnet from the space, and a flannel network makes a pool of it.
-- plugin/pkg/common: Common/ConcurrentMap, Common/DualKeyMap, Common/Compare and Common/Service, each
--   with its theorems in a child module; Common/Event and Common/InitManager, the latter a step relation with its theorem in Once;
--   Common/Act, calls in sequence that may fail. The space keeps its pools in a ConcurrentMap; reading
--   allocations back uses `AddOrUpdate`; a service compares maps with Compare.
-- plugin/pkg/etcd/client.go. Etcd/Client: the keys of clients and sub-clients.
-- plugin/pkg/service_lb/fwmarks.go. ServiceLb/Fwmarks: the marks of services (`Get` is `get_mark`,
--   `Release` is `release_mark`), with Claim and Release for the theorems. It stands beside the
--   allocation of addresses and shares only the client and etcd with it.
-- plugin/pkg/etcd/store.go. Etcd/Store: how the items of a store are brought in line with what etcd
--   has, and what its handlers are told; Follow has the theorem.
--   Store/Items: reading the items from their keys. Store/Notices: the calls of the handlers.
-- plugin/pkg/etcd/writeonly_store.go and readonly_store.go. Etcd/WriteOnly and Etcd/ReadOnly; Sync and
--   Mirror have the theorems.
-- plugin/pkg/etcd/sharded_distributed_store.go. Etcd/Sharded: the state and its methods; Sharded/Sync
--   and Sharded/Watch: the synchronisation and the watch; Sync/Local and Shards have the theorems.
-- plugin/pkg/etcd/connection.go. Etcd/Connection: `PutIfNewOrChanged`, by which the stores write.
-- plugin/pkg/dns/resolver.go. Dns/Resolver: the data of the resolver; Lookup: the resolution of a name;
--   Containers has the theorem.
-- plugin/pkg/networking. Networking/Iptables and Networking/Interfaces, on the kernel of External/Host.
-- plugin/pkg/service_lb/network_specific_service_lb.go. ServiceLb/Balancer: the load balancer of a
--   service in one network, which uses Networking; Balancer/Rules has the theorem.
-- plugin/pkg/service_lb/service_lbs_management.go. ServiceLb/Management: the state, which holds that of
--   the marks, the stores, the kernel and the objects of services, and the networks that are known.
--   Management/Backends: the backends of containers. Management/Creation: `createOrUpdateLoadBalancer`;
--   its children Loops, Networks, Vips, Devices, Heard, Listening, Announced and Waiting have the theorems, and Lifts what calls on
--   one part of the state keep. Management/Deletion: `DeleteLoadBalancer`; Twice has the theorem.
--   Management/Subscriptions: `CreateLoadBalancer` and what it subscribes. Management/Stale:
--   `CleanUpStaleLoadBalancers`.
-- plugin/pkg/driver/flannel_driver.go. Driver: the state of the driver, above that of the load balancers
--   and of the resolver, and the objects of services. Driver/Services, Driver/Networks and
--   Driver/Containers: the handlers of the data from Docker; Services/Objects and Services/Owned have what
--   they do to the objects of services, Followed and Valid the theorems.
-- plugin/pkg/driver/ipam.go. Driver/PoolId: the requests for pools and addresses.
-- plugin/pkg/dns/server.go. Dns/Server: the answers; Dns/Rules: the iptables rules of a name server.
-- External: what is not in the repository. External/Etcd is an interface of etcd: `Db` is the cluster
--   with what its other clients are still to do, `found` the store that the next call meets, `left`
--   the store as the last call left it, and the laws say what a transaction that succeeded or was
--   refused has seen and done; any call may fail, after which nothing is known. External/Etcd/Single
--   meets the interface with one client and an association list. External/Texts has Go's functions on
--   texts, written out at the separators '/' and '.', and an interface for addresses and times; External/Lo is
--   an interface for github.com/samber/lo, and External/Host for netlink, IPVS and iptables;
--   Networking/Interfaces/Addresses says which of its calls change the addresses of a device.
-- Prelude: the library's names, Boolean tests, lists, and Go maps as association lists.
-- Examples: tests, and each theorem at a concrete input.
--
-- Locks: a method that holds its lock from its first to its last access is one step. `GetOrAdd` gives
-- up one lock before it takes the other, and what happens between is an argument. A clock reading, a
-- random number and a limit of rounds are arguments: the loop of `allocateFreeIP` has no bound in the
-- code, and runs here on a list of the rounds' readings, as does that of `Get` of the marks on the
-- rounds' random suffixes; an error of the model's own says that the list has ended, so the theorems
-- on results are about runs that end within it. `GenerateFWMARK` has the 1000 attempts of the code.
-- One clock reading stands for those of a round. The numbers of `ipToInt` are cut to
-- 32 bits where Go cuts them.
--
-- The loop of `ipsInSubnet` runs on fuel, for which the number of the subnet's addresses is enough. A
-- watch is the list of its events: the loss of a channel is left out, and so is what happens between
-- the load of a store and the start of its watch.
--
-- The waits for networks and for chains, and the attempts to enter a namespace, are lists of what others
-- do before the next round. In a round of the wait for chains, no one else acts.
-- The wait for networks is in turns with others, and is woken up only by a broadcast while it waits.
--
-- The methods of a service run one after the other: what another method does between the unlocking
-- and the second look at whether the service is initialized is left out. A panic is an error that ends
-- the run, such as the use of the nil network that `getNetwork` returns for a conflict.
--
-- Not modelled: messages and logs; connections and retries; the sockets of the name servers and how they
-- are activated and deactivated; flanneld and its networks, which are an interface of the driver; the
-- endpoints of the driver; bridges and veths; what Docker sends, and HTTP.
pub mod Prelude
pub mod External
pub mod Common
pub mod Etcd
pub mod Ipam
pub mod Examples
pub mod ServiceLb
pub mod Dns
pub mod Networking
pub mod Driver
