-- ===== src/Lib.antt =====
-- kcover: a model of its controller and its preflight verdict.
--
-- The program. An agent on every node of a training job picks up the report that the preflight
-- checks of a pod left in a file, and sends it as a resource (cmd/agent/preflight_rule.go). The
-- controller parses each report (pkg/preflight/report_parser.go), collects the reports of one
-- workload (pkg/preflight/slow_node_aggregator.go), and, once every node has reported, names the
-- slow nodes (pkg/preflight/slow_node_detection.go), which it then taints.
--
-- The files.
--   Shared: tests with their meaning, lists as sets, association lists as maps, sorting, texts,
--     results of fallible code, the integers, and what Scanner, Atoi and the functions of package bytes do.
--   Preflight.Types: the records of pkg/preflight/types.go and slow_node_aggregator.go.
--   Preflight.Detection: slow_node_detection.go. detectSlowNodes is detect_slow_nodes; every other
--     function keeps its name in snake case. Batches, Intersection and Rule read the loops off the
--     reports; Meaning, Complete and MapOrder are about the rule as a whole.
--   Preflight.Aggregator: slow_node_aggregator.go. A method takes the state and the clock and
--     returns the state and its outcome; the mutex makes each method one step. WellFormed,
--     Invariant, History, Verdict, Timeouts, Frame, Collection and Sweep are about single calls and
--     about sequences of them.
--   Preflight.Json: a decoded JSON value, and Runtime, the operations of Go's library that parsing
--     uses.
--   Preflight.Parser and Preflight.Extraction: report_parser.go and preflight.go, in its two
--     halves; Preflight.Whole puts them under the aggregator.
--   Preflight.Compaction: report_event.go, the part of a report that is sent; RoundTrip is about
--     what the controller reads from it, and Batches about its batches.
--   Preflight.Transport: report_transport.go, the resource that carries a report; Names is about
--     its name, Checked about the checks at the other end.
--   Preflight.Publisher: report_publisher.go with ReportSink, over a work queue that is a
--     parameter; Kept, Accepted and Drained are about the reports that it accepts.
--   Api: pkg/apis/kcover/v1alpha1/types.go, the type of that resource.
--   PodObserver: pkg/podobserver/observer.go; Failures is pkg/detector/pod/pod_status.go, and
--     Deserved and Updates about the events of its rule; Reports is cmd/agent/preflight_rule.go, and Submitted
--     about the reports that this rule submits.
--   NodeCheck: pkg/detector/node/check_metax.go, the checks of a node on the texts that its tools
--     print; Detector is detector_metax.go, Passing says when a node passes, and Readings which
--     lines count.
--   Events: pkg/events/events.go and kubeevent_transport.go: which events of the API reach the
--     controller (Filter), and the way that they take there (Delivery). Events.Sink is
--     kubeevent_sink.go, and RoundTrip takes an event from the sink through the transport,
--     PodObserver.Arrivals one of a pod; Recorded is about the recorder between the two, and
--     Shown about what it shows.
--   Cluster: the API of Kubernetes as a parameter: an answer may depend on all calls before it.
--     Code that makes calls is a Run (Cluster.Calls), which extends the list of calls.
--   Kube: TaintNodeUnschedulable and CurrentNamespace of pkg/kube/kube.go; Marking is about the
--     node that it sends.
--   Recovery: pkg/recovery. Ledger is job_restart_ledger.go, Jobs job.go, Tracker
--     preflight_tracker.go, Controller and Loop recovery.go. Guard, Deletes, Handlers and
--     NodeError are about the calls made; Refined puts the agents' compaction before the tracker.
--   App: cmd/kcover/app.go and cmd/agent/app.go: Start and Stop of the two processes; Rollback is
--     about the order of the calls.
--   AgentConfig: pkg/agentconfig: Load and ApplyDefaults.
--   Files whose names end in Tests hold one concrete input for each theorem, Events.Demo and
--     PodObserver.TwoTexts what they share.
--
-- How Go is modelled. A map is an association list, in the order of one `range`; what depends on
-- the order says so. A time is a number of nanoseconds from some start, and a clock reading is an
-- argument. An int that may be negative is ℤ; the product in calculateBusBW is taken in 64 bits.
-- Error texts and logging are left out; an error is known by its kind. ExpireTimedOutWorkloads
-- loops as long as it finds a workload; the model gives it one turn per stored workload and one
-- more, which is enough since each turn removes one. retry.OnError runs its body five times at
-- most, as retry.DefaultRetry says.
--
-- Not modelled: ntpSyncCheck, which nothing calls, the timer of the detector, the informers, which
-- call the handlers that are modelled, and the construction of the parts of the two processes.
--
-- The lines of a tool are those of bufio.Scanner, which stops at a line of 65536 bytes. The local
-- time of the detector is that of a zone whose clock is not changed.
--
-- Parameters. client-go's work queue is WorkQueue, a record of operations and laws. Its recorder of
-- events is a function from what is to be recorded to what becomes of it, which may be nothing, a
-- new event or an update of one, with the laws IsRecorder. The texts of
-- the commands are an argument of the checks. SHA-256 in hexadecimal and strings.ToLower are
-- fields of Encoders, json.Marshal and the files of reports are arguments. float64,
-- strconv.ParseFloat, netip.ParseAddr and json.Unmarshal are fields of Runtime; the API, the
-- clock, SHA-256 and the format of times are fields of Cluster.
pub mod AgentConfig
pub mod Api
pub mod App
pub mod Cluster
pub mod Events
pub mod Kube
pub mod NodeCheck
pub mod PodObserver
pub mod Preflight
pub mod Recovery
pub mod Shared
