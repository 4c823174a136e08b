-- ===== src/Translations/Zh/Node.antt =====
-- The Chinese texts of the tabs and the pages of the node, lines 824 to 901 of frontend/src/i18n/translations.ts.
use lokinode.Translations.Table.{Table}
use mathlib.Core.List.{[], ◌∷◌}

unfoldable pub texts : Table
texts =
    ("tab.overview", "概览")
    ∷ ("tab.history", "交易")
    ∷ ("tab.receive", "收款")
    ∷ ("tab.send", "发送")
    ∷ ("tab.security", "安全")
    ∷ ("tab.network", "网络")
    ∷ ("tab.logs", "日志")
    ∷ ("tab.about", "关于")
    ∷ ("logs.live", "实时")
    ∷ ("logs.connecting", "连接中…")
    ∷ ("logs.reconnecting", "重新连接…")
    ∷ ("logs.lines", "{{count}} 行")
    ∷ ("logs.offline", "无法连接日志流。")
    ∷ ("logs.waiting", "等待日志输出…")
    ∷ ("logs.latest", "最新")
    ∷ ("logs.title", "节点日志")
    ∷ ("node.balance", "总余额")
    ∷ ("node.connecting", "连接中…")
    ∷ ("node.status.locked", "已锁定")
    ∷ ("node.status.starting", "启动中")
    ∷ ("node.status.restarting", "重启中")
    ∷ ("node.status.syncing", "同步中")
    ∷ ("node.status.active", "节点运行中")
    ∷ ("node.status.error", "节点错误")
    ∷ ("node.status.locking_wallet", "正在锁定钱包")
    ∷ ("node.status.sub.locked", "点击解锁钱包")
    ∷ ("node.status.sub.locking", "正在重启守护进程 · 解锁窗口即将打开")
    ∷ ("node.status.sub.restarting", "正在重启…")
    ∷ ("node.status.sub.stopping", "等待守护进程退出…")
    ∷ ("node.status.sub.retrying", "守护进程停止 · 点击重试")
    ∷ ("node.status.sub.recover", "守护进程停止 · 点击恢复")
    ∷ ("node.status.recovering", "恢复中…")
    ∷ ("node.sync.init", "初始化…")
    ∷ ("node.sync.none", "启动中…")
    ∷ ("node.sync.unlocked", "钱包已解锁，同步中…")
    ∷ ("node.sync.syncing", "区块链同步中…")
    ∷ ("node.sync.scanning", "扫描钱包历史…")
    ∷ ("node.sync.tx", "处理交易中…")
    ∷ ("node.sync.default", "连接到链…")
    ∷ ("node.sync.slow", "耗时比预期更长 — 查看日志或停止节点")
    ∷ ("node.open_folder", "打开数据文件夹")
    ∷ ("node.errors.open_folder_failed", "无法打开文件夹")
    ∷ ("node.stop", "停止节点")
    ∷ ("node.stop.confirm", "确认停止?")
    ∷ ("node.power_off", "关闭节点")
    ∷ ("node.power_off.confirm", "确认关闭节点？")
    ∷ ("node.stopping", "停止中…")
    ∷ ("node.lock", "锁定节点")
    ∷ ("node.lock.confirm", "确认锁定?")
    ∷ ("node.locking", "锁定中…")
    ∷ ("node.lokihub", "LokiHub")
    ∷ ("node.stop_logs_hint", "查看实时日志")
    ∷ ("unlock.title", "解锁钱包")
    ∷ ("unlock.subtitle", "输入密码以激活节点")
    ∷ ("unlock.placeholder", "密码")
    ∷ ("unlock.button", "解锁")
    ∷ ("unlock.loading", "解锁中…")
    ∷ ("unlock.success", "钱包已解锁")
    ∷ ("unlock.error.title", "密码错误")
    ∷ ("unlock.error.desc", "请检查密码后重试。")
    ∷ ("overview.network", "网络")
    ∷ ("overview.alias", "别名")
    ∷ ("overview.sync", "同步")
    ∷ ("overview.synced", "已同步")
    ∷ ("overview.block", "区块")
    ∷ ("overview.last_block", "最新区块 {{time}}")
    ∷ ("overview.last_block_label", "最新区块")
    ∷ ("overview.pubkey", "公钥")
    ∷ ("overview.data_dir", "数据文件夹")
    ∷ ("overview.confirmed", "已确认")
    ∷ ("overview.pending", "待确认")
    ∷ ("overview.locked", "已锁定")
    ∷ ("time.seconds_ago", "{{n}}秒前")
    ∷ ("time.minutes_ago", "{{n}}分钟前")
    ∷ ("time.hours_ago", "{{n}}小时前")
    ∷ ("time.days_ago", "{{n}}天前")
    ∷ ("time.months_ago", "{{n}}月前")
    ∷ ("time.years_ago", "{{n}}年前")
    ∷ []
