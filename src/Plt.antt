-- ===== src/Plt.antt =====
-- The base library under plt/: its value types and containers.
pub mod Time
pub mod PriorityQueue
pub mod HashTable
pub mod LinkedList
