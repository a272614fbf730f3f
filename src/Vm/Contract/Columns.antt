-- ===== src/Vm/Contract/Columns.antt =====
-- TAB of src/vm.c and the columns of a line.
use basset_lang.Host.{Host}
use basset_lang.Vm.State.{Vm}
