-- ===== src/Lib.antt =====
-- Models of mu, a Go toolkit for work on HPC clusters from a laptop or a login node, and theorems
-- about them. The program is one binary: engines under internal/ that parse, decide and format
-- (queue, sshfs, job, tomledit, mirror, ...), widgets under internal/render, and the commands under
-- internal/cli that gather the engines' inputs from the machine and carry out what they decide.
--
-- Base holds what the modules share: tests on numbers, lists, text as a list of code points
-- (Base/Strings) and the functions of Go's strings package that the code calls (Base/GoStrings).
-- Each other folder is a package of the program, and a module of it a file of that package; the
-- modules below one prove what their names say. Examples holds runs on concrete inputs.
--
-- Sshfs/Guard (internal/sshfs/guard.go): the tick of the mount guard, `Decide`, as the function
-- `decide` from the state and the observations to the new state and the actions. The state is a
-- record; the map of mounts is a function from names. The branches for a mount that is down and
-- for one that is up are `down` and `up`; `observe` is a round of the loop. Percentages are counts
-- of tenths, since ps prints one decimal; times and durations are counts of nanoseconds, and the count
-- of hot ticks is a natural: a state file with a negative one is left out. A null entry of that file
-- is no entry to `Decide`, and a nil dereference, `none`, in `Parked`.
-- Cli/GuardTick (internal/cli/sshfs_guard.go): the command around it, `runGuardTick`, over a record
-- of what the machine answers; a nil dereference is the result `none`.
-- Cli/SyncPrune (internal/cli/syncprune.go, with resolveTiers and narrowTier of
-- internal/cli/projectsync.go): `projectSyncPrune` over a record of what the machine, the cluster and the
-- user answer, from the choice of the tiers to the runs of rsync and the manifests trimmed behind them.
-- Job/Watch (internal/job/watch.go): the tick loop of `Watch`, from the results of the progress hook
-- to the lines of the progress file. A percentage is of any type with an equality test, which the
-- theorems take to be an equality where they need it, as that of float64 is without NaN.
-- Mirror/Resolve (internal/mirror/mirror.go): the longest root of a path, the names of cases and runs,
-- and `Archive`, over the sets, the glob and `filepath.Join` as arguments.
-- Render/Form (internal/render/form.go): the fields that the form and the editor share.
-- Render/EditorTree, EditorScroll, Editor, EditorUpdate (internal/render/editor.go): the tree editor.
-- The tree becomes flat rows once; EditorTree walks them, EditorScroll keeps the scroll window, Editor
-- holds the model with its values, rules and patches, EditorUpdate is `Update` with the methods that
-- it calls. Each node has a field of its own, so a row holds its field by value. The editor of a
-- list, map or set is the interface `CollEditor`, a parameter, which Render/Collection fills. A row
-- that is not there is a fault, the result `none`.
-- Render/Collection (internal/render/collection.go): that editor, the record `collection` of the
-- interface; Render/Literal is the text that it reads and writes.
-- Render/FormModel (internal/render/form.go): the form, its late patches, its keys and its result.
-- Render/Picker (internal/render/select.go): the picker behind `Select`. Filter and Facets say which rows
-- a filter shows, Model holds the state, the view and the scroll window, Update is `Update` with the
-- methods that it calls, and the commands that it returns are data. The map of marks is a function
-- from ids, `strings.ToLower` a parameter, and an index out of range a fault, the result `none`.
-- Queue/Walltime (internal/queue/walltime.go): ParseWalltime, FormatWalltime, NormalizeWalltime. An
-- int is its 64-bit pattern, so sums wrap; float64 is the record `FloatOps`, a parameter.
-- Queue/Durations (the same file): parsePBSDuration and parseSLURMDuration.
-- Queue/Job, States, Listing (internal/queue/queue.go): the job, the states and the parsers of the
-- schedulers' listings, with `strings.ToUpper` and `strings.ToLower` as parameters.
-- Queue/Select (internal/queue/select.go): Match and MatchAll; the regexps of the masks are a parameter.
-- Tomledit/Line, Doc, Edit (internal/tomledit/tomledit.go): what a line says, the document with the
-- spans of its tables and what is read of it, and `Set`. An index of a table is the table itself where
-- the code looks it up first. Tomledit/Seams is `Split` and `Assemble`; its Spec says which tables of a
-- document are taken out for a name and which are left.
--
-- The digits of a number run on fuel, one more than the number. No other definition does: the loops
-- that search or scroll go over the rows that are left, and `page` over the rows of a page.
--
-- Not modelled: what the program prints and draws, calls of other programs, file I/O, and the
-- engines and commands that have no module here.
pub mod Base
pub mod Cli
pub mod Examples
pub mod Job
pub mod Mirror
pub mod Queue
pub mod Render
pub mod Sshfs
pub mod Tomledit
